-- ===== src/Ring/Copies.antt =====
-- One copy, or two copies round the end of the array, as `Enqueue` and `Dequeue` make them.
use mmoserver.Shared.{ℕ, ◌+◌, ◌-◌, ◌%◌, ◌≤◌, ◌<◌, ◌≡◌, arith, Memory, memcpy}
use mmoserver.Ring.State.{ring_buffer_size}

abbrev pub once : Memory → Memory → ℕ → ℕ → Memory
once buf src start n = memcpy buf start src 0 n

abbrev pub twice : Memory → Memory → ℕ → ℕ → ℕ → Memory
twice buf src start d n = memcpy (memcpy buf start src 0 d) 0 src d (n - d)

-- They put `src` at the places behind `start`.
module _ (buf src : Memory) (start d n k : ℕ) where
  pub once_added :
      k < n
      → start + n ≤ ring_buffer_size
      → once buf src start n ((start + k) % ring_buffer_size) ≡ src k
  unfolding memcpy
  once_added lt fits = ground arith

  pub twice_added :
      k < n
      → d < n
      → start + d ≡ ring_buffer_size
      → n < ring_buffer_size
      → twice buf src start d n ((start + k) % ring_buffer_size) ≡ src k
  unfolding memcpy
  twice_added lt more fits small = ground arith

-- They leave the `u` bytes before `start` alone.
module _ (buf src : Memory) (start d n read u k : ℕ) where
  abbrev here : ℕ
  here = (read + 1 + k) % ring_buffer_size

  pub once_kept :
      start ≡ (read + u + 1) % ring_buffer_size
      → k < u
      → u + n < ring_buffer_size
      → start + n ≤ ring_buffer_size
      → once buf src start n here ≡ buf here
  unfolding memcpy
  once_kept e lt room fits = ground arith

  pub twice_kept :
      start ≡ (read + u + 1) % ring_buffer_size
      → k < u
      → u + n < ring_buffer_size
      → d < n
      → start + d ≡ ring_buffer_size
      → twice buf src start d n here ≡ buf here
  unfolding memcpy
  twice_kept e lt room more fits = ground arith

-- The copies out of the array take the bytes behind `start`, going round.
module _ (dest buf : Memory) (start d n k : ℕ) where
  pub once_taken :
      k < n
      → start + n ≤ ring_buffer_size
      → start < ring_buffer_size
      → memcpy dest 0 buf start n k ≡ buf ((start + k) % ring_buffer_size)
  unfolding memcpy
  once_taken lt fits small = ground arith

  pub twice_taken :
      k < n
      → d < n
      → start + d ≡ ring_buffer_size
      → n < ring_buffer_size
      → memcpy (memcpy dest 0 buf start d) d buf 0 (n - d) k ≡ buf ((start + k) % ring_buffer_size)
  unfolding memcpy
  twice_taken lt more fits small = ground arith
