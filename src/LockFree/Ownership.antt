-- ===== src/LockFree/Ownership.antt =====
-- Where the blocks of a FreeList are, and what the flags in their headers say
-- (ServerCore/Memory/FreeList.h).
use mmoserver.Shared.{ℕ, ◌+◌, ◌<◌, ◌≡◌, refl, arith, ltb, if◌then◌else◌, none}
use mmoserver.Families.{sum-assign, sum-eq-zero, weight-le-sum, occurrences, weights-le-sum}
use mmoserver.LockFree.Top.{out, popped, push_ptr, pop_ptr}
use mmoserver.LockFree.Safety.{carries, places, Inv, write-Inv, assign-Inv, Move-Inv, Move-places}
use mmoserver.LockFree.FreeList.{
  MemHeader, FreeList, IsMarked, Step, loop, alloc, alloc_heap, allocate_memory, alloc_return,
  free_underflow, free_twice, free, free_return, init, Reach, start, later,
}

-- Whether the client has block `a`.
abbrev pub with_client : FreeList → ℕ → ℕ
with_client s a = if ltb a s.fresh then (if (s.headers a).free_flag then 0 else 1) else 0

pub record IsOwned (n : ℕ) (s : FreeList) : Type 0 where
  pub safe : Inv n s.top s.phase
  pub once : (a : ℕ) → places a n s.top s.phase + with_client s a ≡ (if ltb a s.fresh then 1 else 0)
  pub marked : (a : ℕ) → a < s.fresh → IsMarked s a

Step-IsOwned : {n : ℕ} {s t : FreeList} → Step n s t → IsOwned n s → IsOwned n t
Step-IsOwned {n} {s} (loop i lt e mv) c = record {
  safe = Move-Inv c.safe i lt mv e;
  once = λ a. rw (Move-places c.safe i lt mv e a) (c.once a);
  marked = c.marked;
}
Step-IsOwned {n} {s} (alloc i lt e) c = record {
  safe =
      assign-Inv c.safe i pop_ptr tt
        (λ a. omega (arith, c.safe.single a, sum-assign (carries a) n s.phase i pop_ptr lt));
  once = λ a. ground (arith, c.once a, sum-assign (carries a) n s.phase i pop_ptr lt);
  marked = c.marked;
}
Step-IsOwned {n} {s} (alloc_heap i id size lt e) c = record {
  safe =
      write-Inv
        (assign-Inv c.safe i out tt
          (λ a. ground (arith, c.safe.single a, sum-assign (carries a) n s.phase i out lt)))
        s.fresh none
        (ground (arith, c.once s.fresh, sum-assign (carries s.fresh) n s.phase i out lt));
  once = λ a. ground (arith, c.once a, sum-assign (carries a) n s.phase i out lt);
  marked = λ a below. ground (arith, c.marked a);
}
Step-IsOwned {n} {s} (alloc_return i b lt e) c = record {
  safe =
      write-Inv
        (assign-Inv c.safe i out tt
          (λ a. ground (arith, c.safe.single a, sum-assign (carries a) n s.phase i out lt)))
        b none (ground (arith, c.safe.single b, sum-assign (carries b) n s.phase i out lt));
  once = λ a. ground (
    arith,
    c.once a,
    sum-assign (carries a) n s.phase i out lt,
    weight-le-sum (carries a) n s.phase i lt,
  );
  marked = λ a below. ground (arith, c.marked a);
}
Step-IsOwned {n} {s} (allocate_memory i size lt e) c = record {
  safe = write-Inv c.safe s.fresh none (ground (arith, c.once s.fresh));
  once = λ a. ground (arith, c.once a);
  marked = λ a below. ground (arith, c.marked a);
}
Step-IsOwned {n} {s} (free_underflow i a lt e unmarked) c = c
Step-IsOwned {n} {s} (free_twice i a lt below e marked set) c = c
Step-IsOwned {n} {s} (free i b lt below e marked clear) c = record {
  safe =
      assign-Inv c.safe i (push_ptr b) tt
        (λ a. ground (arith, c.once a, sum-assign (carries a) n s.phase i (push_ptr b) lt));
  once = λ a. ground (arith, c.once a, sum-assign (carries a) n s.phase i (push_ptr b) lt);
  marked = λ a lt'. ground (arith, c.marked a);
}
Step-IsOwned {n} {s} (free_return i b lt e) c = record {
  safe =
      assign-Inv c.safe i out tt
        (λ a. ground (arith, c.safe.single a, sum-assign (carries a) n s.phase i out lt));
  once = λ a. ground (arith, c.once a, sum-assign (carries a) n s.phase i out lt);
  marked = c.marked;
}

init-IsOwned : (n uid : ℕ) (memory : ℕ → MemHeader) → IsOwned n (init uid memory)
init-IsOwned n uid memory = record {
  safe = record {
    linked = refl;
    single = λ a. omega (arith, sum-eq-zero (carries a) n (λ i. out) (λ i. refl));
    current = λ i lt. tt;
  };
  once = λ a. ground (arith, sum-eq-zero (carries a) n (λ i. out) (λ i. refl));
  marked = λ a below. absurd (omega arith);
}

-- In every reachable state the blocks of the list are linked from the top on, and each block that the
-- heap gave is in exactly one place: in the list, with one thread inside `Alloc` or `Free`, or, when
-- its flag is clear, with the client.
pub Reach-IsOwned : {n : ℕ} {s : FreeList} → Reach n s → IsOwned n s
Reach-IsOwned {n} (start uid memory) = init-IsOwned n uid memory
Reach-IsOwned (later r st) = Step-IsOwned st (Reach-IsOwned r)

module _ {n : ℕ} {s : FreeList} (r : Reach n s) where
  -- A block that `Alloc` is about to return is with no client, in no other thread's hands and not in
  -- the list.
  pub alloc-IsFresh :
      (i j a : ℕ)
      → i < n
      → j < n
      → s.phase i ≡ popped a
      → carries a (s.phase j) ≡ 1
      → (i ≡ j) × (with_client s a ≡ 0) × (occurrences a s.top.nodes ≡ 0)
  alloc-IsFresh i j a hi hj e o = ground (
    arith,
    (Reach-IsOwned r).once a,
    weight-le-sum (carries a) n s.phase i hi,
    weights-le-sum (carries a) n s.phase i j,
    weights-le-sum (carries a) n s.phase j i,
  )
