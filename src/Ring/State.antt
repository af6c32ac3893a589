-- ===== src/Ring/State.antt =====
-- RingQ of ServerCore/Memory/RingBuffer.h: the fields, the sizes, and the moves of the positions.
-- The memory is a function from the offset behind `m_Buffer` to the byte there: an offset of
-- `ring_buffer_size` or more names the memory that follows the array. Sizes and positions are
-- natural numbers.
use mmoserver.Shared.{ℤ, pos, negsuc, ℕ, ◌+◌, ◌-◌, ◌%◌, ltb, leb, ◌==◌, if◌then◌else◌, Memory}

abbrev pub ring_buffer_size : ℕ
ring_buffer_size = 7000

-- `read_position` is the index of the byte read last, `write_position` that of the byte written
-- last.
pub record RingQ : Type 0 where
  pub read_position : ℕ
  pub write_position : ℕ
  pub buffer : Memory

-- The constructor, over the bytes that follow the array.
pub new : Memory → RingQ
new beyond = record {
  read_position = 0;
  write_position = 0;
  buffer = λ i. if ltb i ring_buffer_size then 0 else beyond i;
}

unfoldable pub get_free_size : ℕ → ℕ → ℕ
get_free_size front rear =
    if (rear + 1) % ring_buffer_size == front
    then 0
    else if ltb rear front
    then front - rear - 1
    else front + (ring_buffer_size - 1) - rear

unfoldable pub get_used_size : ℕ → ℕ → ℕ
get_used_size front rear =
    if rear == front
    then 0
    else if ltb front rear
    then rear - front
    else rear + (ring_buffer_size - 1) - front + 1

unfoldable pub get_write_size : RingQ → ℕ
get_write_size r =
    if (r.write_position + 1) % ring_buffer_size == r.read_position
    then 0
    else if ltb r.write_position r.read_position
    then r.read_position - r.write_position - 1
    else r.read_position + (ring_buffer_size - 1) - r.write_position

unfoldable pub get_read_size : RingQ → ℕ
get_read_size r =
    if r.write_position == r.read_position
    then 0
    else if ltb r.read_position r.write_position
    then r.write_position - r.read_position
    else r.write_position + (ring_buffer_size - 1) - r.read_position + 1

unfoldable pub get_direct_enqueue_size : ℕ → ℕ → ℕ
get_direct_enqueue_size front rear =
    if (rear + 1) % ring_buffer_size == front
    then 0
    else let rear_next = (rear + 1) % ring_buffer_size in
      if ltb rear_next front then front - rear_next else ring_buffer_size - 1 - rear_next + 1

unfoldable pub get_direct_dequeue_size : ℕ → ℕ → ℕ
get_direct_dequeue_size front rear =
    if front == rear
    then 0
    else let next_front = (front + 1) % ring_buffer_size in
      if leb next_front rear then rear - next_front + 1 else ring_buffer_size - 1 - next_front + 1

unfoldable pub get_direct_write_size : RingQ → ℕ
get_direct_write_size r =
    if (r.write_position + 1) % ring_buffer_size == r.read_position
    then 0
    else let rear_next = (r.write_position + 1) % ring_buffer_size in
      if ltb rear_next r.read_position
      then r.read_position - rear_next
      else ring_buffer_size - 1 - rear_next + 1

unfoldable pub get_direct_read_size : RingQ → ℕ
get_direct_read_size r =
    if r.read_position == r.write_position
    then 0
    else let next_front = (r.read_position + 1) % ring_buffer_size in
      if leb next_front r.write_position
      then r.write_position - next_front + 1
      else ring_buffer_size - 1 - next_front + 1

unfoldable pub clear_buffer : RingQ → RingQ
clear_buffer r = record r { read_position = 0; write_position = 0 }

unfoldable pub move_write_position : RingQ → ℤ → RingQ
move_write_position r (negsuc n) = r
move_write_position r (pos n) = record r {
  write_position = (r.write_position + n) % ring_buffer_size;
}

unfoldable pub move_read_position : RingQ → ℤ → RingQ
move_read_position r (negsuc n) = r
move_read_position r (pos n) = record r { read_position = (r.read_position + n) % ring_buffer_size }
