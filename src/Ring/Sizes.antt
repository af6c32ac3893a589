-- ===== src/Ring/Sizes.antt =====
-- The sizes that RingBuffer.cpp computes from the two positions.
use mmoserver.Shared.{ℤ, pos, negsuc, ℕ, ◌+◌, ◌≤◌, ◌<◌, ◌%◌, ◌≡◌, arith}
use mmoserver.Ring.State.{
  RingQ, ring_buffer_size, get_free_size, get_used_size, get_write_size, get_read_size,
  get_direct_enqueue_size, get_direct_dequeue_size, get_direct_write_size, get_direct_read_size,
  move_write_position, move_read_position,
}

-- Both positions are indices of the array.
pub record IsValid (r : RingQ) : Type 0 where
  pub read_in : r.read_position < ring_buffer_size
  pub write_in : r.write_position < ring_buffer_size

-- The position-taking helpers and the members agree on every ring.
pub sizes_agree :
    (r : RingQ)
    → (get_write_size r ≡ get_free_size r.read_position r.write_position)
      × (get_read_size r ≡ get_used_size r.read_position r.write_position)
      × (get_direct_write_size r ≡ get_direct_enqueue_size r.read_position r.write_position)
      × (get_direct_read_size r ≡ get_direct_dequeue_size r.read_position r.write_position)
unfolding get_write_size get_free_size get_read_size get_used_size get_direct_write_size
    get_direct_enqueue_size get_direct_read_size get_direct_dequeue_size
sizes_agree r = ground arith

-- On positions within the array the bytes in use and the free bytes make up the array but for one.
pub used-add-free :
    (front rear : ℕ)
    → front < ring_buffer_size
    → rear < ring_buffer_size
    → get_used_size front rear + get_free_size front rear + 1 ≡ ring_buffer_size
unfolding get_used_size get_free_size
used-add-free front rear hf hr = ground arith

-- The bytes in use are the distance from the read position to the write position, going round.
pub used_lem :
    (front rear : ℕ)
    → front < ring_buffer_size
    → rear < ring_buffer_size
    → (get_used_size front rear < ring_buffer_size)
      × ((front + get_used_size front rear) % ring_buffer_size ≡ rear)
unfolding get_used_size
used_lem front rear hf hr = ground arith

-- A distance below the size is the number of bytes in use.
pub used_of_distance :
    (front n : ℕ)
    → front < ring_buffer_size
    → n < ring_buffer_size
    → get_used_size front ((front + n) % ring_buffer_size) ≡ n
unfolding get_used_size
used_of_distance front n hf hn = ground arith

-- The contiguous part of the free bytes: it stays in the array and is not more than is free.
pub direct_enqueue_bounds :
    (front rear : ℕ)
    → front < ring_buffer_size
    → rear < ring_buffer_size
    → let n = get_direct_enqueue_size front rear in
      (n ≤ get_free_size front rear)
      × ((rear + 1) % ring_buffer_size + n ≤ ring_buffer_size)
      × (n < get_free_size front rear → (rear + 1) % ring_buffer_size + n ≡ ring_buffer_size)
      × (0 < get_free_size front rear → 0 < n)
unfolding get_direct_enqueue_size get_free_size
direct_enqueue_bounds front rear hf hr = ground arith

-- The contiguous part of the bytes in use, likewise.
pub direct_dequeue_bounds :
    (front rear : ℕ)
    → front < ring_buffer_size
    → rear < ring_buffer_size
    → let n = get_direct_dequeue_size front rear in
      (n ≤ get_used_size front rear)
      × ((front + 1) % ring_buffer_size + n ≤ ring_buffer_size)
      × (n < get_used_size front rear → (front + 1) % ring_buffer_size + n ≡ ring_buffer_size)
      × (0 < get_used_size front rear → 0 < n)
unfolding get_direct_dequeue_size get_used_size
direct_dequeue_bounds front rear hf hr = ground arith

pub move-IsValid :
    {r : RingQ} (n : ℤ)
    → IsValid r
    → IsValid (move_write_position r n) × IsValid (move_read_position r n)
unfolding move_write_position move_read_position
move-IsValid (pos n) v = ground arith
move-IsValid (negsuc n) v = ground arith
