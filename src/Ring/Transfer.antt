-- ===== src/Ring/Transfer.antt =====
-- Enqueue, Dequeue and Peek of ServerCore/Memory/RingBuffer.cpp. The one negative value that the
-- code can compute, `-1 % RING_BUFFER_SIZE`, is the `none` of `last_index`.
use mmoserver.Shared.{
  ℕ, ◌+◌, ◌-◌, ◌%◌, Option, none, some, ltb, ◌==◌, if◌then◌else◌, ◌>>=◌, Memory, memcpy,
}
use mmoserver.Ring.State.{
  RingQ, ring_buffer_size, get_free_size, get_used_size, get_direct_enqueue_size,
  get_direct_dequeue_size, get_direct_read_size,
}

-- `(p + n - 1) % RING_BUFFER_SIZE`: at `p + n == 0` the remainder is -1.
unfoldable pub last_index : ℕ → ℕ → Option ℕ
last_index p n = if p + n == 0 then none else some ((p + n - 1) % ring_buffer_size)

-- The two copies of `Enqueue`, at most `size` bytes, and the new `m_writePosition`.
unfoldable pub enqueue_copy : RingQ → Memory → ℕ → Option RingQ
unfolding last_index
enqueue_copy r src size =
    let direct_size = get_direct_enqueue_size r.read_position r.write_position in
    let start = (r.write_position + 1) % ring_buffer_size in
    let diff = size - direct_size in
    if ltb direct_size size
    then (last_index start direct_size >>= λ last.
        let next = (last + 1) % ring_buffer_size in
        last_index next diff >>= λ rear. some (record r {
          write_position = rear;
          buffer = memcpy (memcpy r.buffer start src 0 direct_size) next src direct_size diff;
        }))
    else (last_index start size >>= λ rear.
        some (record r { write_position = rear; buffer = memcpy r.buffer start src 0 size }))

-- The ring and the returned number of bytes; `none` if `m_writePosition` becomes -1.
unfoldable pub enqueue : RingQ → Memory → ℕ → Option (RingQ × ℕ)
enqueue r src size =
    let free_size = get_free_size r.read_position r.write_position in
    let size' = if ltb free_size size then free_size else size in
    let copied = enqueue_copy r src size' >>= λ r'. some (r', size') in
    if ltb free_size size then (if size' == 0 then some (r, 0) else copied) else copied

-- The copies of `Dequeue`: the caller's buffer, and the new `m_readPosition`.
unfoldable pub dequeue_copy : RingQ → Memory → ℕ → Option (RingQ × Memory)
unfolding last_index
dequeue_copy r dest size =
    let direct_size = get_direct_dequeue_size r.read_position r.write_position in
    let start = (r.read_position + 1) % ring_buffer_size in
    let diff = size - direct_size in
    if ltb direct_size size
    then (last_index start direct_size >>= λ last.
        let next = (last + 1) % ring_buffer_size in
        last_index next diff >>= λ front. some (
          record r { read_position = front },
          memcpy (memcpy dest 0 r.buffer start direct_size) direct_size r.buffer next diff,
        ))
    else (last_index start size >>= λ front.
        some (record r { read_position = front }, memcpy dest 0 r.buffer start size))

-- The ring, the caller's buffer and the returned number of bytes; `none` if `m_readPosition`
-- becomes -1.
unfoldable pub dequeue : RingQ → Memory → ℕ → Option (RingQ × Memory × ℕ)
dequeue r dest size =
    let used_size = get_used_size r.read_position r.write_position in
    let size' = if ltb used_size size then used_size else size in
    let copied = dequeue_copy r dest size' >>= λ p. some (p.0, p.1, size') in
    if ltb used_size size then (if size' == 0 then some (r, dest, 0) else copied) else copied

-- The caller's buffer and the returned number of bytes; `none` if `copyFront` becomes -1.
unfoldable pub peek : RingQ → Memory → ℕ → Option (Memory × ℕ)
unfolding last_index
peek r dest size =
    let used_size = get_used_size r.read_position r.write_position in
    let size' = if ltb used_size size then used_size else size in
    let direct_size = get_direct_read_size r in
    let start = (r.read_position + 1) % ring_buffer_size in
    let diff = size' - direct_size in
    let copied =
      if ltb direct_size size'
      then (last_index start direct_size >>= λ last.
          let next = (last + 1) % ring_buffer_size in
          some (
            memcpy (memcpy dest 0 r.buffer start direct_size) direct_size r.buffer next diff,
            size',
          ))
      else some (memcpy dest 0 r.buffer start size', size') in
    if ltb used_size size then (if size' == 0 then some (dest, 0) else copied) else copied
