-- ===== src/LockFree/Preallocate.antt =====
-- The constructor of a FreeList that makes blocks in advance (ServerCore/Memory/FreeList.h).
use mmoserver.Shared.{
  ap₂, ℕ, ◌+◌, ◌<◌, ◌≡◌, zero, suc, true, false, some, List, [], ◌∷◌, arith, refl,
}
use mmoserver.Families.{assign}
use mmoserver.LockFree.Top.{
  out, push_ptr, push_id, push_link, push_swap, pushed, read_push_ptr, read_push_id, link, push_win,
}
use mmoserver.LockFree.FreeList.{
  MemHeader, FreeList, IsMarked, loop, allocate_memory, allocate_memory_from_heap, free,
  free_return, set_flag, set_phase, init, Reach, start, later,
}

-- Free by thread 0, while no other thread is there: the exchange of its loop succeeds at once.
abbrev pub linked_in : FreeList → ℕ → FreeList
linked_in s a =
    set_phase (record s { top = record (s.top) { next = assign s.top.next a s.top.top_ptr } }) 0
      (push_swap a s.top.top_ptr s.top.check_id)

abbrev pub on_top : FreeList → ℕ → FreeList
on_top s a =
    set_phase
      (record s {
        top = record (s.top) {
          top_ptr = some a;
          check_id = s.top.check_id + 1;
          nodes = a ∷ s.top.nodes;
        };
      })
      0 (pushed a)

abbrev pub free_alone : FreeList → ℕ → FreeList
free_alone s a =
    let at_top = set_phase (set_flag s a true) 0 (push_ptr a) in
    let seen = set_phase at_top 0 (push_id a s.top.top_ptr) in
    let read = set_phase seen 0 (push_link a s.top.top_ptr s.top.check_id) in
    set_phase (on_top (linked_in read a) a) 0 out

-- The constructor's loop, which allocates a block and gives it back.
unfoldable pub preallocate : ℕ → FreeList → FreeList
preallocate zero s = s
preallocate (suc block_num) s =
    let before = preallocate block_num s in
    free_alone (allocate_memory_from_heap before 0) before.fresh

abbrev pub blocks : ℕ → List ℕ
blocks zero = []
blocks (suc k) = k ∷ blocks k

record Preallocated (n k : ℕ) (s : FreeList) : Type 0 where
  pub reached : Reach n s
  pub idle : (i : ℕ) → s.phase i ≡ out
  pub listed : s.top.nodes ≡ blocks k
  pub counted : s.fresh ≡ k

free_alone-Reach :
    {n : ℕ} {s : FreeList} (a : ℕ)
    → Reach n s
    → 0 < n
    → a < s.fresh
    → s.phase 0 ≡ out
    → IsMarked s a
    → (s.headers a).free_flag ≡ false
    → Reach n (free_alone s a)
free_alone-Reach a r some_thread below idle marked clear =
    later
      (later
        (later
          (later
            (later (later r (free 0 a some_thread below idle marked clear))
              (loop 0 some_thread refl read_push_ptr))
            (loop 0 some_thread refl read_push_id))
          (loop 0 some_thread refl link))
        (loop 0 some_thread refl (push_win refl refl)))
      (free_return 0 a some_thread refl)

-- The constructor that makes blocks in advance leaves the list in a state that threads reach from an
-- empty one: no thread is inside, and the list holds the blocks, as many as were asked for, the newest
-- on top.
preallocate_lem :
    (n uid : ℕ) (memory : ℕ → MemHeader) (k : ℕ)
    → 0 < n
    → Preallocated n k (preallocate k (init uid memory))
unfolding preallocate
preallocate_lem n uid memory zero some_thread = record {
  reached = start uid memory;
  idle = λ i. refl;
  listed = refl;
  counted = refl;
}
preallocate_lem n uid memory (suc k) some_thread =
    let s = preallocate k (init uid memory) in
    let h = preallocate_lem n uid memory k some_thread in
    record {
      reached =
          free_alone-Reach s.fresh (later h.reached (allocate_memory 0 0 some_thread (h.idle 0)))
            some_thread (omega arith) (h.idle 0) (ground arith, ground arith) (ground arith);
      idle = λ i. ground (arith, h.idle i);
      listed = ap₂ ◌∷◌ h.counted h.listed;
      counted = omega (arith, h.counted);
    }
