-- ===== src/ObjectPool/Tests.antt =====
-- A pool with one slot in a page, from which thread 0 takes three times.
use mmoserver.Shared.{ℕ, ◌≡◌, Option, none, some, arith, refl}
use mmoserver.ObjectPool.Defs.{
  ChunkMetadata, ObjectPool, chunk_alloc, construct_loop, push_slot, alloc_here, page_alloc, alloc,
  no_pages, pop_from_fresh_slot, pop_from_recycled_slots, try_steal_from_global, steal_from,
}
use mmoserver.PointerStack.{push, pop, full, empty}
use mmoserver.ObjectPool.Places.{IsPooled, with_slot}
use mmoserver.ObjectPool.Reach.{Reach, start, allocated, Reach-IsPooled, alloc_unused}
use mmoserver.ObjectPool.Defs.{calc_slot_count}
use mmoserver.ObjectPool.SlotCount.{IsSlotCount, calc_slot_count_lem}
use mmoserver.ObjectPool.Abandoned.{IsAside, abandoned_lem}

abbrev memory : ℕ → ChunkMetadata
memory a = record { chunk_owner = 0; mark_value = 0; size = 0; alloc_thread = 0 }

abbrev first : ObjectPool
first = (chunk_alloc 1 0 (no_pages memory)).1

abbrev pool_of : Option (ℕ × ObjectPool) → ObjectPool
pool_of none = first
pool_of (some (s, v)) = v

abbrev second : ObjectPool
second = pool_of (alloc 1 2 0 16 first)

abbrev third : ObjectPool
third = pool_of (alloc 1 2 0 16 second)

takes_first : alloc 1 2 0 16 first ≡ some (0, second)
unfolding alloc page_alloc alloc_here chunk_alloc construct_loop push_slot pop_from_fresh_slot
    pop_from_recycled_slots try_steal_from_global steal_from push pop full empty
takes_first = refl

takes_second : alloc 1 2 0 16 second ≡ some (1, third)
unfolding alloc page_alloc alloc_here chunk_alloc construct_loop push_slot pop_from_fresh_slot
    pop_from_recycled_slots try_steal_from_global steal_from push pop full empty
takes_second = refl

to_third : Reach 1 third (with_slot (with_slot (λ a. 0) (some 0)) (some 1))
to_third = allocated 0 16 (allocated 0 16 (start 0 memory) takes_first) takes_second

Reach-IsPooled_example : IsPooled third (with_slot (with_slot (λ a. 0) (some 0)) (some 1))
Reach-IsPooled_example = Reach-IsPooled 1 (omega arith) to_third

alloc_unused_example :
    (s : ℕ) × (v' : ObjectPool) × (alloc 1 2 0 16 third ≡ some (s, v'))
    × (with_slot (with_slot (λ a. 0) (some 0)) (some 1) s ≡ 0)
alloc_unused_example = alloc_unused 1 (omega arith) 0 0 16 to_third

abbrev fourth : ObjectPool
fourth = pool_of (alloc 1 2 0 16 third)

takes_third : alloc 1 2 0 16 third ≡ some (2, fourth)
unfolding alloc page_alloc alloc_here chunk_alloc construct_loop push_slot pop_from_fresh_slot
    pop_from_recycled_slots try_steal_from_global steal_from push pop full empty
takes_third = refl

page-IsAside : IsAside 0 (third.pages 0) third
unfolding alloc page_alloc alloc_here chunk_alloc construct_loop push_slot pop_from_fresh_slot
    pop_from_recycled_slots try_steal_from_global steal_from push pop full empty
page-IsAside = (omega arith, λ u. ground arith, refl)

abandoned_lem_example : IsAside 0 (third.pages 0) fourth
abandoned_lem_example =
    abandoned_lem 0 (third.pages 0) 1 2 0 16 2 third fourth page-IsAside takes_third

calc_slot_count_lem_example : IsSlotCount 5000 (calc_slot_count 5000)
calc_slot_count_lem_example = calc_slot_count_lem 5000 (omega arith)
