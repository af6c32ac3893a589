-- ===== src/Receive/Defs.antt =====
-- NetworkTaskReceiveIO of ServerCore/Network/NetworkTask.cpp and NetworkSession::OnRecvMessage of
-- ServerCore/Network/NetworkSession.cpp: what arrives is cut into packets, each is deciphered in
-- place, checked, unpacked and handed to the job queue of the session.
use mmoserver.Shared.{
  to_int32, pos, negsuc, ℕ, zero, suc, ◌+◌, ◌-◌, ◌*◌, Bool, true, false, Option, none, some, List,
  [], ◌∷◌, ◌++◌, leb, ◌==◌, if◌then◌else◌, Memory, slice,
}
use mmoserver.Ring.State.{
  RingQ, get_read_size, get_write_size, move_read_position, move_write_position,
}
use mmoserver.Ring.Segments.{WsaBuf, get_read_buffer_ptr, get_direct_en_q_data}
use mmoserver.Cipher.{convert}

-- PACKET_HEADER_SIZE of ServerCore/Memory/Global.h, the size of a `flatbuffers::uoffset_t`.
abbrev pub packet_header_size : ℕ
packet_header_size = 4

-- `flatbuffers::ReadScalar<uoffset_t>` is documented to read four bytes, the lowest first.
unfoldable pub read_scalar : Memory → ℕ → ℕ
read_scalar m p = m p + 256 * (m (p + 1) + 256 * (m (p + 2) + 256 * m (p + 3)))

-- EStep of ServerCore/Memory/Global.h.
pub data EStep : Type 0 where
  not_started running success_send success_connect failed : EStep

-- `switch (m_step)` with cases for `None` and `Running`, and a default.
abbrev pub switch_step {ℓ} : {A : Type ℓ} → EStep → A → A → A → A
switch_step not_started a b c = a
switch_step running a b c = b
switch_step success_send a b c = c
switch_step success_connect a b c = c
switch_step failed a b c = c

-- What WSARecv and WSAGetLastError say of a request.
pub data IoResult : Type 0 where
  done pending refused : IoResult

-- What happens outside the ring, in order.
pub data Effect (Message : Type 0) : Type 0 where
  wsa_recv : List WsaBuf → Effect Message
  remove_session : ℕ → Effect Message
  push_job : ℕ → Message → Effect Message

-- The session that owns the task: its id and its receive buffer.
pub record Session : Type 0 where
  pub session_id : ℕ
  pub recv_ring_queue : RingQ

-- A task and its owner; `none` is a null `m_owner`.
pub record ReceiveTask : Type 0 where
  pub owner : Option Session
  pub step : EStep

-- The packet that stands complete at the read position: its place and its message size.
unfoldable pub next_packet : RingQ → Option (ℕ × ℕ)
unfolding to_int32
next_packet r =
    if leb packet_header_size (get_read_size r)
    then (elim (get_read_buffer_ptr r) [
      | none ↦ none
      | some packet ↦ elim (to_int32 (read_scalar r.buffer packet)) [
        | negsuc n ↦ none
        | pos message_size ↦
            if leb message_size (get_read_size r - packet_header_size)
            then some (packet, message_size)
            else none
      ]
    ])
    else none

-- `MoveReadPosition`, then `Convert` in place.
unfoldable pub take_packet : RingQ → ℕ → ℕ → RingQ
take_packet r packet message_size =
    let moved = move_read_position r (pos (packet_header_size + message_size)) in
    record moved { buffer = convert moved.buffer (packet + packet_header_size) message_size }

-- The bytes that OnRecvMessage is given.
abbrev pub packet_bytes : RingQ → ℕ → ℕ → List ℕ
packet_bytes r packet message_size = slice r.buffer packet (packet_header_size + message_size)

-- The parsing loop over fuel: the ring that it leaves, and the packets that it handed over.
unfoldable pub parse_loop : ℕ → RingQ → Option (RingQ × List (List ℕ))
parse_loop zero r = none
parse_loop (suc fuel) r = elim (next_packet r) [
  | none ↦ some (r, [])
  | some (packet, message_size) ↦
      let r' = take_packet r packet message_size in
      elim (parse_loop fuel r') [
        | none ↦ none
        | some (last, packets) ↦ some (last, packet_bytes r' packet message_size ∷ packets)
      ]
]

-- The FlatBuffers verifier and reader are not part of the repository's own code.
module _ {Message : Type 0} (verify : List ℕ → Bool) (unpack : List ℕ → Message) where
  unfoldable pub on_recv_message : ℕ → List ℕ → List (Effect Message)
  on_recv_message session_id packet =
      if verify packet then push_job session_id (unpack packet) ∷ [] else []

  unfoldable pub on_recv_messages : ℕ → List (List ℕ) → List (Effect Message)
  unfolding on_recv_message
  on_recv_messages session_id [] = []
  on_recv_messages session_id (p ∷ ps) =
      on_recv_message session_id p ++ on_recv_messages session_id ps

  -- The WSARecv of `Start`, and what follows its failure.
  unfoldable pub request : IoResult → Session → Bool × ReceiveTask × List (Effect Message)
  request refused s = (
    false,
    record { owner = none; step = running },
    wsa_recv (get_direct_en_q_data s.recv_ring_queue []) ∷ [],
  )
  request io s = (
    true,
    record { owner = some s; step = running },
    wsa_recv (get_direct_en_q_data s.recv_ring_queue []) ∷ [],
  )

  unfoldable pub start : IoResult → ReceiveTask → Bool × ReceiveTask × List (Effect Message)
  unfolding request
  start io t = elim t.owner [
    | none ↦ (false, record t { step = running }, [])
    | some s ↦
        if get_write_size s.recv_ring_queue == 0
        then (false, record t { step = running }, [])
        else request io s
  ]

  -- The part of `Complete` that runs when bytes came in; the fuel is one round for each byte that
  -- the ring can hold, and one for the test that ends the loop.
  unfoldable pub received :
      IoResult → Session → ℕ → Option (Bool × ReceiveTask × List (Effect Message))
  unfolding start on_recv_messages
  received io s transferred =
      let moved = move_write_position s.recv_ring_queue (pos transferred) in
      elim (parse_loop 7001 moved) [
        | none ↦ none
        | some (r, packets) ↦
            let s' : Session = record s { recv_ring_queue = r } in
            let (b, t, effects) = start io (record { owner = some s'; step = running }) in
            some (b, t, on_recv_messages s.session_id packets ++ effects)
      ]

  unfoldable pub complete :
      IoResult → Bool → ℕ → ReceiveTask → Option (Bool × ReceiveTask × List (Effect Message))
  complete io result transferred t = elim t.owner [
    | none ↦ some (false, t, [])
    | some s ↦
        let accepted = received io s transferred in
        let rejected = some (false, record t { owner = none }, remove_session s.session_id ∷ []) in
        if result then (if transferred == 0 then rejected else accepted) else rejected
  ]

  unfoldable pub run :
      IoResult → Bool → ℕ → ReceiveTask → Option (Bool × ReceiveTask × List (Effect Message))
  unfolding start complete
  run io result transferred t =
      switch_step t.step (some (start io t)) (complete io result transferred t)
        (some (false, t, []))
