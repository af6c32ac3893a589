-- ===== src/Ring/Dequeue.antt =====
-- `Dequeue` takes the oldest bytes off the queue, and `Peek` reads them.
use mmoserver.Shared.{
  ℕ, ◌+◌, ◌-◌, ◌%◌, ◌≤◌, ◌<◌, ◌≡◌, sym, ◌∙◌, ap, none, some, ◌++◌, ◌↔◌, min, arith, zero-add,
  dec_lt, ltb, if◌then◌else◌, Memory, memcpy, slice, slice-cong, slice-add,
}
use mmoserver.Ring.State.{RingQ, ring_buffer_size, get_used_size, get_direct_dequeue_size}
use mmoserver.Ring.Transfer.{dequeue_copy, dequeue, peek}
use mmoserver.Ring.Sizes.{IsValid, used_lem, used_of_distance, direct_dequeue_bounds, sizes_agree}
use mmoserver.Ring.Copies.{once_taken, twice_taken}
use mmoserver.Ring.Fifo.{used, contents, byte_at}

-- The ring whose oldest `n` bytes are gone.
abbrev pub skip : RingQ → ℕ → RingQ
skip r n = record r { read_position = (r.read_position + n) % ring_buffer_size }

-- Two ways to count up to `m` bytes behind `n` others.
split_used : (n u : ℕ) → n ≤ u → u ≡ n + (u - n)
split_used n u h = omega arith

module _ (r : RingQ) (n : ℕ) (v : IsValid r) (fits : n ≤ used r) where
  around :
      (used r < ring_buffer_size)
      × ((r.read_position + used r) % ring_buffer_size ≡ r.write_position)
  around = used_lem r.read_position r.write_position v.read_in v.write_in

  pub skip-IsValid : IsValid (skip r n)
  skip-IsValid = record { read_in = omega arith; write_in = v.write_in }

  pub used-skip : used (skip r n) ≡ used r - n
  used-skip =
      ap (get_used_size (skip r n).read_position) there
      ∙ used_of_distance (skip r n).read_position (used r - n) (omega arith) (omega (arith, around))
    where
      there : r.write_position ≡ ((skip r n).read_position + (used r - n)) % ring_buffer_size
      there = omega (arith, around)

  byte_at-skip : (k : ℕ) → k < used r - n → byte_at (skip r n) (0 + k) ≡ byte_at r (0 + n + k)
  byte_at-skip k lt = ap r.buffer (omega arith)

  -- The oldest `n` bytes, and what is left.
  pub contents-skip : contents r ≡ slice (byte_at r) 0 n ++ contents (skip r n)
  contents-skip =
      ap (slice (byte_at r) 0) (split_used n (used r) fits)
      ∙ slice-add (byte_at r) 0 n (used r - n)
      ∙ ap (λ l. slice (byte_at r) 0 n ++ l)
          (sym (
            ap (slice (byte_at (skip r n)) 0) used-skip
            ∙ slice-cong (byte_at (skip r n)) (byte_at r) 0 (0 + n) (used r - n) byte_at-skip))

  module _ (dest : Memory) where
    abbrev direct : ℕ
    direct = get_direct_dequeue_size r.read_position r.write_position

    abbrev start : ℕ
    start = (r.read_position + 1) % ring_buffer_size

    bounds :
        (direct ≤ used r)
        × (start + direct ≤ ring_buffer_size)
        × (direct < used r → start + direct ≡ ring_buffer_size)
        × (0 < used r → 0 < direct)
    bounds = direct_dequeue_bounds r.read_position r.write_position v.read_in v.write_in

    at_end : direct < n → start + direct ≡ ring_buffer_size
    at_end wraps = bounds.2 (omega arith)

    -- What the copies leave in the caller's buffer.
    abbrev pub taken : Memory
    taken =
        if ltb direct n
        then memcpy (memcpy dest 0 r.buffer start direct) direct r.buffer 0 (n - direct)
        else memcpy dest 0 r.buffer start n

    start_byte : (k : ℕ) → r.buffer ((start + k) % ring_buffer_size) ≡ byte_at r k
    start_byte k = ap r.buffer (omega arith)

    taken_byte : (k : ℕ) → k < n → taken k ≡ byte_at r k
    taken_byte k lt = ground (
      arith,
      bounds,
      at_end,
      start_byte k,
      around,
      once_taken dest r.buffer start direct n k lt,
      twice_taken dest r.buffer start direct n k lt,
    )

    slice-taken : slice taken 0 n ≡ slice (byte_at r) 0 n
    slice-taken = slice-cong taken (byte_at r) 0 0 n (λ k lt. rw zero-add (taken_byte k lt))

    dequeue_copy_lem : 0 < n → dequeue_copy r dest n ≡ some (skip r n, taken)
    unfolding dequeue_copy
    dequeue_copy_lem some_bytes = ground (arith, bounds, at_end)

    -- The caller's buffer holds the oldest bytes, and the ring holds the others.
    pub contents-taken : contents r ≡ slice taken 0 n ++ contents (skip r n)
    contents-taken = contents-skip ∙ ap (λ l. l ++ contents (skip r n)) (sym slice-taken)

-- What a call of `Dequeue` with a positive size does: it hands over `min size (used r)` bytes.
pub record Dequeued (r : RingQ) (dest : Memory) (size : ℕ) : Type 0 where
  pub ring : RingQ
  pub out : Memory
  pub returns : dequeue r dest size ≡ some (ring, out, min size (used r))
  pub valid : IsValid ring
  pub handed : contents r ≡ slice out 0 (min size (used r)) ++ contents ring

-- On a valid ring `Dequeue` of a positive size hands over the first `min size (used r)` bytes of the
-- contents, returns that number and leaves a valid ring that holds the others.
pub dequeue-Dequeued :
    (r : RingQ) (dest : Memory) (size : ℕ) → IsValid r → 0 < size → Dequeued r dest size
unfolding dequeue
dequeue-Dequeued r dest size v some_bytes = elim (dec_lt 0 (used r)) [
  | yes room ↦
      let fits : min size (used r) ≤ used r = omega arith in
      record {
        ring = skip r (min size (used r));
        out = taken r (min size (used r)) v fits dest;
        returns = ground (arith, dequeue_copy_lem r (min size (used r)) v fits dest (omega arith));
        valid = skip-IsValid r (min size (used r)) v fits;
        handed = contents-taken r (min size (used r)) v fits dest;
      }
  | no empty ↦
      let zero_bytes : min size (used r) ≡ 0 = omega arith in
      record {
        ring = r;
        out = dest;
        returns = ground (arith, zero_bytes);
        valid = v;
        handed = rw zero_bytes;
      }
]

-- On a valid ring `Peek` of a positive size copies the first `min size (used r)` bytes of the contents
-- to `dest` and returns that number.
pub peek_lem :
    (r : RingQ) (dest : Memory) (size : ℕ)
    → IsValid r
    → 0 < size
    → (out : Memory) × (peek r dest size ≡ some (out, min size (used r)))
      × (slice out 0 (min size (used r)) ≡ slice (byte_at r) 0 (min size (used r)))
unfolding peek
peek_lem r dest size v some_bytes = elim (dec_lt 0 (used r)) [
  | yes room ↦
      let fits : min size (used r) ≤ used r = omega arith in
      (
        taken r (min size (used r)) v fits dest,
        ground (
          arith,
          sizes_agree r,
          bounds r (min size (used r)) v fits dest,
          at_end r (min size (used r)) v fits dest,
        ),
        slice-taken r (min size (used r)) v fits dest,
      )
  | no empty ↦
      let zero_bytes : min size (used r) ≡ 0 = omega arith in
      (dest, ground (arith, zero_bytes), rw zero_bytes)
]

-- On a valid ring `Dequeue` makes the read position -1 exactly when it is asked for no bytes at the last index.
pub dequeue-eq-none :
    (r : RingQ) (dest : Memory) (size : ℕ)
    → IsValid r
    → (dequeue r dest size ≡ none) ↔ ((size ≡ 0) × (r.read_position + 1 ≡ ring_buffer_size))
unfolding dequeue dequeue_copy
dequeue-eq-none r dest size v = (only, ground arith)
  where
    only : dequeue r dest size ≡ none → (size ≡ 0) × (r.read_position + 1 ≡ ring_buffer_size)
    only e = elim (dec_lt 0 size) [
      | yes some_bytes ↦ absurd (cc (dequeue-Dequeued r dest size v some_bytes).returns)
      | no nothing ↦ ground arith
    ]
