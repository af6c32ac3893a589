-- ===== src/Ring/Enqueue.antt =====
-- `Enqueue` appends to the queue.
use mmoserver.Shared.{
  ℕ, ◌+◌, ◌%◌, ◌≤◌, ◌<◌, ◌≡◌, refl, sym, ◌∙◌, ap, none, some, append-nil, ◌++◌, min, arith, dec_lt,
  Memory, slice, ◌↔◌,
}
use mmoserver.Ring.State.{RingQ, ring_buffer_size, get_direct_enqueue_size}
use mmoserver.Ring.Transfer.{enqueue_copy, enqueue}
use mmoserver.Ring.Sizes.{IsValid, used-add-free, used_lem, direct_enqueue_bounds}
use mmoserver.Ring.Copies.{once, twice, once_added, once_kept, twice_added, twice_kept}
use mmoserver.Ring.Fifo.{used, free, contents, Extends, Extends-IsValid, contents-Extends}

module _ (r : RingQ) (src : Memory) (n : ℕ) (v : IsValid r) where
  abbrev direct : ℕ
  direct = get_direct_enqueue_size r.read_position r.write_position

  abbrev start : ℕ
  start = (r.write_position + 1) % ring_buffer_size

  -- The ring after the copies.
  abbrev after : Memory → RingQ
  after m = record r { write_position = (r.write_position + n) % ring_buffer_size; buffer = m }

  bounds : record {
    direct :
        (direct ≤ free r)
        × (start + direct ≤ ring_buffer_size)
        × (direct < free r → start + direct ≡ ring_buffer_size)
        × (0 < free r → 0 < direct);
    room : used r + free r + 1 ≡ ring_buffer_size;
    around :
        (used r < ring_buffer_size)
        × ((r.read_position + used r) % ring_buffer_size ≡ r.write_position);
  }
  bounds = record {
    direct = direct_enqueue_bounds r.read_position r.write_position v.read_in v.write_in;
    room = used-add-free r.read_position r.write_position v.read_in v.write_in;
    around = used_lem r.read_position r.write_position v.read_in v.write_in;
  }

  start_added :
      (k : ℕ) → (r.write_position + 1 + k) % ring_buffer_size ≡ (start + k) % ring_buffer_size
  start_added k = omega arith

  module _ (some_bytes : 0 < n) (fits : n ≤ free r) where
    once-Extends : n ≤ direct → Extends r (after (once r.buffer src start n)) src n
    once-Extends inside = record {
      same_read = refl;
      write = refl;
      added = λ k lt.
          ap (once r.buffer src start n) (start_added k)
          ∙ once_added r.buffer src start direct n k lt (omega (arith, bounds));
      kept = λ k lt.
          once_kept r.buffer src start direct n r.read_position (used r) k (omega (arith, bounds))
            lt (omega (arith, bounds)) (omega (arith, bounds));
    }

    -- A first copy that is short of `n` bytes ends at the end of the array.
    at_end : direct < n → start + direct ≡ ring_buffer_size
    at_end wraps = bounds.direct.2 (omega arith)

    twice-Extends : direct < n → Extends r (after (twice r.buffer src start direct n)) src n
    twice-Extends wraps = record {
      same_read = refl;
      write = refl;
      added = λ k lt.
          ap (twice r.buffer src start direct n) (start_added k)
          ∙ twice_added r.buffer src start direct n k lt wraps (at_end wraps)
              (omega (arith, bounds));
      kept = λ k lt.
          twice_kept r.buffer src start direct n r.read_position (used r) k (omega (arith, bounds))
            lt (omega (arith, bounds)) wraps (at_end wraps);
    }

    pub enqueue_copy-Extends : (r' : RingQ) × (enqueue_copy r src n ≡ some r') × Extends r r' src n
    unfolding enqueue_copy
    enqueue_copy-Extends = elim (dec_lt direct n) [
      | yes wraps ↦ (
        after (twice r.buffer src start direct n),
        ground (arith, bounds, at_end wraps),
        twice-Extends wraps,
      )
      | no inside ↦
          (after (once r.buffer src start n), ground (arith, bounds), once-Extends (omega arith))
    ]

-- What a call of `Enqueue` with a positive size does: it takes `min size (free r)` bytes.
pub record Enqueued (r : RingQ) (src : Memory) (size : ℕ) : Type 0 where
  pub ring : RingQ
  pub returns : enqueue r src size ≡ some (ring, min size (free r))
  pub valid : IsValid ring
  pub appended : contents ring ≡ contents r ++ slice src 0 (min size (free r))

-- On a valid ring `Enqueue` of a positive size appends the first `min size (free r)` bytes of `src` to
-- the contents, returns that number and leaves a valid ring.
pub enqueue-Enqueued :
    (r : RingQ) (src : Memory) (size : ℕ) → IsValid r → 0 < size → Enqueued r src size
unfolding enqueue
enqueue-Enqueued r src size v some_bytes = elim (dec_lt 0 (free r)) [
  | yes room ↦
      let (r', e, x) =
        enqueue_copy-Extends r src (min size (free r)) v (omega arith) (omega arith) in
      record {
        ring = r';
        returns = ground (arith, e);
        valid = Extends-IsValid v x;
        appended = contents-Extends v x (omega arith);
      }
  | no full ↦
      let zero_bytes : min size (free r) ≡ 0 = omega arith in
      record {
        ring = r;
        returns = ground (arith, zero_bytes);
        valid = v;
        appended = rw zero_bytes (sym (append-nil (contents r)));
      }
]

-- On a valid ring `Enqueue` makes the write position -1 exactly when it is asked for no bytes at the last index.
pub enqueue-eq-none :
    (r : RingQ) (src : Memory) (size : ℕ)
    → IsValid r
    → (enqueue r src size ≡ none) ↔ ((size ≡ 0) × (r.write_position + 1 ≡ ring_buffer_size))
unfolding enqueue enqueue_copy
enqueue-eq-none r src size v = (only, ground arith)
  where
    only : enqueue r src size ≡ none → (size ≡ 0) × (r.write_position + 1 ≡ ring_buffer_size)
    only e = elim (dec_lt 0 size) [
      | yes some_bytes ↦ absurd (cc (enqueue-Enqueued r src size v some_bytes).returns)
      | no nothing ↦ ground arith
    ]
