-- ===== src/Send/Packet.antt =====
-- NetworkSession::Send of ServerCore/Network/NetworkSession.h, up to the send queue: the buffer that
-- the FlatBuffers builder made, with its message enciphered.
use mmoserver.Shared.{ℕ, ◌+◌, ◌-◌, ◌^◌, ◌<◌, ◌≡◌, ltb, if◌then◌else◌, Memory, slice, List}
use mmoserver.Cipher.{convert}
use mmoserver.Receive.Defs.{packet_header_size, read_scalar}

-- NetworkPacket: the bytes of `m_buffer` and their number.
pub record NetworkPacket : Type 0 where
  pub bytes : Memory
  pub size : ℕ

-- What `Send` puts into the queue for the buffer that the builder released.
unfoldable pub seal : NetworkPacket → NetworkPacket
seal p =
    let message_size = p.size - packet_header_size in
    if ltb 0 message_size
    then record p { bytes = convert p.bytes packet_header_size message_size }
    else p

-- What `FinishSizePrefixed` is documented to release: the first four bytes are the number of the
-- bytes behind them.
pub record IsSizePrefixed (p : NetworkPacket) : Type 0 where
  pub message_size : ℕ
  pub whole : p.size ≡ packet_header_size + message_size
  pub header : read_scalar p.bytes 0 ≡ message_size
  pub small : message_size < 2 ^ 31
  pub octets : (k : ℕ) → p.bytes k < 256

-- All bytes of a buffer.
abbrev pub whole_bytes : NetworkPacket → List ℕ
whole_bytes p = slice p.bytes 0 p.size
