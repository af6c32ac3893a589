-- ===== src/LockFree/Tests.antt =====
-- The loops at a concrete stack.
use mmoserver.Shared.{true, ℕ, ◌≡◌, refl, none, some, [], ◌∷◌, arith}
use mmoserver.Families.{occurrences, assign}
use mmoserver.LockFree.Preallocate.{preallocate}
use mmoserver.LockFree.FreeList.{
  MemHeader, FreeList, set_phase, set_flag, allocate_memory_from_heap, loop, alloc, alloc_heap,
  free, free_return, init, Reach, start, later,
}
use mmoserver.LockFree.Ownership.{IsOwned, with_client, Reach-IsOwned, alloc-IsFresh}
use mmoserver.LockFree.Top.{
  push_id, push_link, pop_ptr, pop_id, pop_next, pop_swap, popped, read_push_ptr, read_push_id,
  link, read_pop_ptr, read_pop_id, read_next, pop_win, out, push_swap, pushed, push_win, push_ptr,
}

abbrev no_memory : ℕ → MemHeader
no_memory a = record { mark_id = 0; mark_value = 0; free_flag = true; size = 0 }

-- A list from which thread 0 gets a block from the heap, which it then starts to give back.
abbrev empty_list : FreeList
empty_list = init 2 no_memory

abbrev in_alloc : FreeList
in_alloc =
    set_phase (set_phase (set_phase empty_list 0 pop_ptr) 0 (pop_id none)) 0 (pop_next none 0)

abbrev block_held : FreeList
block_held = set_phase (allocate_memory_from_heap in_alloc 16) 0 out

abbrev block_freed : FreeList
block_freed = set_phase (set_flag block_held 0 true) 0 (push_ptr 0)

to_held : Reach 2 block_held
to_held =
    later
      (later
        (later (later (start 2 no_memory) (alloc 0 (omega arith) refl))
          (loop 0 (omega arith) refl read_pop_ptr))
        (loop 0 (omega arith) refl read_pop_id))
      (alloc_heap 0 0 16 (omega arith) refl)

to_freed : Reach 2 block_freed
to_freed = later to_held (free 0 0 (omega arith) (omega arith) refl (refl, refl) refl)

Reach-IsOwned_example : IsOwned 2 block_freed
Reach-IsOwned_example = Reach-IsOwned to_freed

-- The block is put in, and taken out by thread 1.
abbrev in_free : FreeList
in_free = set_phase (set_phase block_freed 0 (push_id 0 none)) 0 (push_link 0 none 0)

abbrev was_linked : FreeList
was_linked =
    set_phase
      (record in_free { top = record (in_free.top) { next = assign in_free.top.next 0 none } }) 0
      (push_swap 0 none 0)

abbrev block_in : FreeList
block_in =
    set_phase
      (set_phase
        (record was_linked {
          top = record (was_linked.top) { top_ptr = some 0; check_id = 1; nodes = 0 ∷ [] };
        })
        0 (pushed 0))
      0 out

abbrev in_second_alloc : FreeList
in_second_alloc =
    set_phase
      (set_phase (set_phase (set_phase block_in 1 pop_ptr) 1 (pop_id (some 0))) 1
        (pop_next (some 0) 1))
      1 (pop_swap 0 1 none)

abbrev block_out : FreeList
block_out =
    set_phase
      (record in_second_alloc {
        top = record (in_second_alloc.top) { top_ptr = none; check_id = 2; nodes = [] };
      })
      1 (popped 0)

to_in : Reach 2 block_in
to_in =
    later
      (later
        (later
          (later (later to_freed (loop 0 (omega arith) refl read_push_ptr))
            (loop 0 (omega arith) refl read_push_id))
          (loop 0 (omega arith) refl link))
        (loop 0 (omega arith) refl (push_win refl refl)))
      (free_return 0 0 (omega arith) refl)

to_out : Reach 2 block_out
to_out =
    later
      (later
        (later
          (later (later to_in (alloc 1 (omega arith) refl))
            (loop 1 (omega arith) refl read_pop_ptr))
          (loop 1 (omega arith) refl read_pop_id))
        (loop 1 (omega arith) refl (read_next refl)))
      (loop 1 (omega arith) refl (pop_win refl refl))

alloc-IsFresh_example :
    ◌≡◌ {A = ℕ} 1 1 × (with_client block_out 0 ≡ 0) × (occurrences 0 block_out.top.nodes ≡ 0)
alloc-IsFresh_example = alloc-IsFresh to_out 1 1 0 (omega arith) (omega arith) refl refl

in_advance : (preallocate 2 (init 9 no_memory)).top.nodes ≡ 1 ∷ 0 ∷ []
unfolding preallocate
in_advance = refl
