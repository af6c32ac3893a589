-- ===== src/ObjectPool/Defs.antt =====
-- The pages of an ObjectPool, and its operations (ServerCore/Memory/Chunk.h, ObjectPool.h). Slots and
-- pages are numbers, in the order in which they are made. Each function is what one thread `t` does, from
-- its call to its return; the number of a thread stands for the hash of its id. The stack of batches is
-- LockFreeStack, the memory of pages and of stacks is FreeList, which gives memory that is in no other
-- use, constructed anew. A page has as many slots as a batch.
use mmoserver.Shared.{
  ℕ, zero, suc, ◌+◌, leb, ◌*◌, ◌/◌, Bool, true, false, Option, none, some, List, [], ◌∷◌, ◌==◌,
  if◌then◌else◌,
}
use mmoserver.Families.{assign}
use mmoserver.LockFree.FreeList.{mark_front}
use mmoserver.PointerStack.{PointerStack, new, push, pop, full, empty}

-- CalcSlotCount of a type with `s` bytes.
abbrev pub kb : ℕ
kb = 1024

abbrev pub mb : ℕ
mb = 1024 * kb

unfoldable pub calc_slot_count : ℕ → ℕ
calc_slot_count s =
    if leb s 64
    then 256 * kb / s
    else if leb s 128
    then 1 * mb / s
    else if leb s 256
    then 1 * mb / s
    else if leb s 512
    then 2 * mb / s
    else if leb s 1024
    then 2 * mb / s
    else if leb 64 (2 * mb / s)
    then 2 * mb / s
    else 64

pub record ChunkMetadata : Type 0 where
  pub chunk_owner : ℕ
  pub mark_value : ℕ
  pub size : ℕ
  pub alloc_thread : ℕ

pub record ChunkPage : Type 0 where
  pub fresh_slots : PointerStack ℕ
  pub recycled_slots : PointerStack ℕ

-- `tls` is the page that each thread has; the metadata of a slot that is not made is memory.
pub record ObjectPool : Type 0 where
  pub pages : ℕ → ChunkPage
  pub chunks : ℕ
  pub slots : ℕ
  pub metadata : ℕ → ChunkMetadata
  pub global_batch_stack : List (PointerStack ℕ)
  pub tls : ℕ → Option ℕ

abbrev pub empty_stack : PointerStack ℕ
empty_stack = new (λ i. 0)

abbrev pub set_page : ObjectPool → ℕ → ChunkPage → ObjectPool
set_page v p page = record v { pages = assign v.pages p page }

-- PopFromFreshSlot and PopFromRecyledSlots write the metadata of the slot.
abbrev pub take_slot : ℕ → ℕ → ℕ → ObjectPool → ObjectPool
take_slot t size s v = record v {
  metadata = assign v.metadata s (record (v.metadata s) { size = size; alloc_thread = t });
}

unfoldable pub pop_from_fresh_slot : ℕ → ℕ → ℕ → ObjectPool → Option ℕ × ObjectPool
pop_from_fresh_slot t p size v =
    let page = v.pages p in
    if empty page.fresh_slots then (none, v) else (elim (pop page.fresh_slots).0 [
      | none ↦ (none, v)
      | some s ↦ (
        some s,
        take_slot t size s (set_page v p (record page { fresh_slots = (pop page.fresh_slots).1 })),
      )
    ])

unfoldable pub pop_from_recycled_slots : ℕ → ℕ → ℕ → ObjectPool → Option ℕ × ObjectPool
pop_from_recycled_slots t p size v =
    let page = v.pages p in
    if empty page.recycled_slots then (none, v) else (elim (pop page.recycled_slots).0 [
      | none ↦ (none, v)
      | some s ↦ (
        some s,
        take_slot t size s
            (set_page v p (record page { recycled_slots = (pop page.recycled_slots).1 })),
      )
    ])

-- The stack of the batch is exchanged with that of the page, which goes back to the memory of stacks.
unfoldable pub steal_from : ℕ → ObjectPool → List (PointerStack ℕ) → Bool × ObjectPool
steal_from p v [] = (false, v)
steal_from p v (batch ∷ rest) = (
  true,
  set_page (record v { global_batch_stack = rest }) p (record (v.pages p) { fresh_slots = batch }),
)

unfoldable pub try_steal_from_global : ℕ → ObjectPool → Bool × ObjectPool
try_steal_from_global p v = steal_from p v v.global_batch_stack

-- What is done when the one before has given no slot.
abbrev pub or_else : Option ℕ × ObjectPool → Option ℕ × ObjectPool → Option ℕ × ObjectPool
or_else (none, v) other = other
or_else (some s, v) other = (some s, v)

abbrev pub after_steal : ℕ → ℕ → ℕ → Bool × ObjectPool → Option ℕ × ObjectPool
after_steal t p size (true, v) = pop_from_fresh_slot t p size v
after_steal t p size (false, v) = (none, v)

-- ChunkPage::Alloc up to the call of ChunkAlloc.
unfoldable pub alloc_here : ℕ → ℕ → ℕ → ObjectPool → Option ℕ × ObjectPool
alloc_here t p size v = or_else (pop_from_fresh_slot t p size v) (
    or_else (pop_from_recycled_slots t p size v) (after_steal t p size (try_steal_from_global p v)))

abbrev pub or_same : PointerStack ℕ → Option (PointerStack ℕ) → PointerStack ℕ
or_same stack none = stack
or_same stack (some stack') = stack'

abbrev pub or_rest : Option ℕ × ObjectPool → Option (ℕ × ObjectPool) → Option (ℕ × ObjectPool)
or_rest (none, v) rest = rest
or_rest (some s, v) rest = some (s, v)

-- The memory before the constructor, whose ChunkAlloc makes the first page.
abbrev pub no_pages : (ℕ → ChunkMetadata) → ObjectPool
no_pages memory = record {
  pages = λ p. record { fresh_slots = empty_stack; recycled_slots = empty_stack };
  chunks = 0;
  slots = 0;
  metadata = memory;
  global_batch_stack = [];
  tls = λ t. none;
}

module _ (slot_count : ℕ) where
  -- `Push`, whose result the callers do not look at.
  unfoldable pub push_slot : PointerStack ℕ → ℕ → PointerStack ℕ
  push_slot stack s = or_same stack (push slot_count stack s)

  -- The loop of the page's constructor, from slot `s` on.
  unfoldable pub construct_loop :
      ℕ → ℕ → ℕ → ℕ → (ℕ → ChunkMetadata) → PointerStack ℕ → (ℕ → ChunkMetadata) × PointerStack ℕ
  construct_loop t p zero s metadata stack = (metadata, stack)
  construct_loop t p (suc n) s metadata stack =
      construct_loop t p n (s + 1)
        (assign metadata s (record {
          chunk_owner = p;
          mark_value = mark_front;
          size = (metadata s).size;
          alloc_thread = t;
        }))
        (push_slot stack s)

  -- The page that the thread gets is the first component.
  unfoldable pub chunk_alloc : ℕ → ObjectPool → ℕ × ObjectPool
  chunk_alloc t v =
      let (metadata, fresh) = construct_loop t v.chunks slot_count v.slots v.metadata empty_stack in
      (
        v.chunks,
        record v {
          pages =
              assign v.pages v.chunks
                (record { fresh_slots = fresh; recycled_slots = empty_stack });
          chunks = v.chunks + 1;
          slots = v.slots + slot_count;
          metadata = metadata;
          tls = assign v.tls t (some v.chunks);
        },
      )

  -- ChunkPage::Alloc; `none` when the fuel runs out.
  unfoldable pub page_alloc : ℕ → ℕ → ℕ → ℕ → ObjectPool → Option (ℕ × ObjectPool)
  page_alloc zero t p size v = none
  page_alloc (suc fuel) t p size v =
      let (q, v') = chunk_alloc t (alloc_here t p size v).1 in
      or_rest (alloc_here t p size v) (page_alloc fuel t q size v')

  abbrev pub chunk_or_new : ℕ → ObjectPool → Option ℕ → ℕ × ObjectPool
  chunk_or_new t v none = chunk_alloc t v
  chunk_or_new t v (some p) = (p, v)

  -- The page of the thread, made when it has none.
  abbrev pub own_chunk : ℕ → ObjectPool → ℕ × ObjectPool
  own_chunk t v = chunk_or_new t v (v.tls t)

  -- ObjectPool::Alloc.
  unfoldable pub alloc : ℕ → ℕ → ℕ → ObjectPool → Option (ℕ × ObjectPool)
  alloc fuel t size v = let (p, v') = own_chunk t v in page_alloc fuel t p size v'

  -- RecycledToMyLocalPool, at the page `p` of the thread.
  unfoldable pub recycle_at : ℕ → ℕ → ObjectPool → ObjectPool
  recycle_at p s v =
      let page = v.pages p in
      let recycled = push_slot page.recycled_slots s in
      if full slot_count recycled
      then set_page (record v { global_batch_stack = recycled ∷ v.global_batch_stack }) p
          (record page { recycled_slots = empty_stack })
      else set_page v p (record page { recycled_slots = recycled })

  unfoldable pub recycled_to_my_local_pool : ℕ → ℕ → ObjectPool → ObjectPool
  recycled_to_my_local_pool t s v = let (p, v') = own_chunk t v in recycle_at p s v'

  -- ObjectPool::Free with ChunkPage::Free at the owner of the slot; `none` is
  -- "Underflow Violation".
  unfoldable pub free : ℕ → ℕ → ObjectPool → Option ObjectPool
  free t s v =
      let slot = v.metadata s in
      let page = v.pages slot.chunk_owner in
      if slot.mark_value == mark_front
      then (if slot.alloc_thread == t
          then some (
              set_page v slot.chunk_owner
                (record page { fresh_slots = push_slot page.fresh_slots s }))
          else some (recycled_to_my_local_pool t s v))
      else none

  abbrev pub alloc_from_chunk : ℕ → ℕ → ℕ → ObjectPool → Option (ℕ × ObjectPool)
  alloc_from_chunk = alloc

  abbrev pub free_to_chunk : ℕ → ℕ → ObjectPool → Option ObjectPool
  free_to_chunk = free
