-- ===== src/Send/Sealed.antt =====
-- What the enciphering in NetworkSession::Send (ServerCore/Network/NetworkSession.h) leaves as it is.
use mmoserver.Shared.{ℕ, ◌-◌, ◌<◌, ◌≡◌, arith}
use mmoserver.Cipher.Laws.{convert_lem}
use mmoserver.Receive.Defs.{packet_header_size}
use mmoserver.Send.Packet.{NetworkPacket, seal}

module _ (p : NetworkPacket) where
  pub size-seal : (seal p).size ≡ p.size
  unfolding seal
  size-seal = ground arith

  pub header-seal : (k : ℕ) → k < packet_header_size → (seal p).bytes k ≡ p.bytes k
  unfolding seal
  header-seal k lt =
      ground (arith, convert_lem p.bytes packet_header_size (p.size - packet_header_size) k)
