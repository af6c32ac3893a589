-- ===== src/Ring/Segments.antt =====
-- The buffer pointers of ServerCore/Memory/RingBuffer.cpp and the lists of WSABUFs made of them.
use mmoserver.Shared.{
  ℕ, zero, suc, ◌+◌, ◌%◌, Option, none, some, List, [], ◌∷◌, ◌++◌, ◌==◌, if◌then◌else◌,
}
use mmoserver.Ring.State.{RingQ, ring_buffer_size, get_direct_enqueue_size, get_direct_dequeue_size}

-- The pointers into `m_Buffer`, as offsets; `none` is `nullptr`.
unfoldable pub get_front_buffer_ptr : ℕ → ℕ → Option ℕ
get_front_buffer_ptr front rear =
    if rear == front then none else some ((front + 1) % ring_buffer_size)

unfoldable pub get_read_buffer_ptr : RingQ → Option ℕ
get_read_buffer_ptr r =
    if r.write_position == r.read_position
    then none
    else some ((r.read_position + 1) % ring_buffer_size)

unfoldable pub get_write_buffer_ptr_at : ℕ → ℕ → Option ℕ
get_write_buffer_ptr_at front rear =
    if (rear + 1) % ring_buffer_size == front then none else some ((rear + 1) % ring_buffer_size)

unfoldable pub get_write_buffer_ptr : RingQ → Option ℕ
get_write_buffer_ptr r =
    if (r.write_position + 1) % ring_buffer_size == r.read_position
    then none
    else some ((r.write_position + 1) % ring_buffer_size)

-- WSABUF: a pointer into `m_Buffer` and a length.
pub record WsaBuf : Type 0 where
  pub buf : ℕ
  pub len : ℕ

-- The loop of `GetDirectEnQData`, over the rounds left.
unfoldable pub direct_en_q_loop : ℕ → ℕ → ℕ → List WsaBuf → List WsaBuf
unfolding get_write_buffer_ptr_at get_direct_enqueue_size
direct_en_q_loop zero front rear bufs = bufs
direct_en_q_loop (suc n) front rear bufs = elim (get_write_buffer_ptr_at front rear) [
  | none ↦ bufs
  | some p ↦
      let size = get_direct_enqueue_size front rear in
      direct_en_q_loop n front ((rear + size) % ring_buffer_size)
        (bufs ++ record { buf = p; len = size } ∷ [])
]

unfoldable pub get_direct_en_q_data : RingQ → List WsaBuf → List WsaBuf
unfolding direct_en_q_loop
get_direct_en_q_data r bufs = direct_en_q_loop 2 r.read_position r.write_position bufs

-- The loop of `GetDirectDeQData`; its body stores nothing into the list that it is given.
unfoldable pub direct_de_q_loop : ℕ → ℕ → ℕ → List WsaBuf → List WsaBuf
unfolding get_front_buffer_ptr get_direct_dequeue_size
direct_de_q_loop zero front rear bufs = bufs
direct_de_q_loop (suc n) front rear bufs = elim (get_front_buffer_ptr front rear) [
  | none ↦ bufs
  | some p ↦
      direct_de_q_loop n ((front + get_direct_dequeue_size front rear) % ring_buffer_size) rear bufs
]

unfoldable pub get_direct_de_q_data : RingQ → List WsaBuf → List WsaBuf
unfolding direct_de_q_loop
get_direct_de_q_data r bufs = direct_de_q_loop 2 r.read_position r.write_position bufs
