-- ===== src/ObjectPool/Places.antt =====
-- Where the slots of an ObjectPool are (ServerCore/Memory/Chunk.h, ObjectPool.h).
use mmoserver.Shared.{
  ℕ, ◌+◌, ◌≤◌, ◌<◌, ◌≡◌, Bool-cases, Option, none, some, List, [], ◌∷◌, ◌==◌, ltb, if◌then◌else◌,
  arith, refl, inl, inr, ◌⊎◌, subst, sym, ap,
}
use mmoserver.Families.{occurrences, sum, sum-assign}
use mmoserver.LockFree.FreeList.{mark_front}
use mmoserver.PointerStack.{PointerStack, empty, contents, pop_lem, stack_lem}
use mmoserver.ObjectPool.Defs.{
  ChunkPage, ObjectPool, set_page, take_slot, pop_from_fresh_slot, pop_from_recycled_slots,
  try_steal_from_global, steal_from, alloc_here, or_else, after_steal,
}

abbrev pub in_stack : ℕ → PointerStack ℕ → ℕ
in_stack a st = occurrences a (contents st)

abbrev pub in_page : ℕ → ChunkPage → ℕ
in_page a page = in_stack a page.fresh_slots + in_stack a page.recycled_slots

abbrev pub in_batches : ℕ → List (PointerStack ℕ) → ℕ
in_batches a [] = 0
in_batches a (st ∷ rest) = in_stack a st + in_batches a rest

-- In how many places slot `a` is in the pool.
abbrev pub places : ℕ → ObjectPool → ℕ
places a v = sum (in_page a) v.chunks v.pages + in_batches a v.global_batch_stack

-- The clients have slot `a` `out a` times.
pub record IsPooled (v : ObjectPool) (out : ℕ → ℕ) : Type 0 where
  pub once : (a : ℕ) → places a v + out a ≤ (if ltb a v.slots then 1 else 0)
  pub current : (t p : ℕ) → v.tls t ≡ some p → p < v.chunks
  pub owned : (a : ℕ) → a < v.slots → (v.metadata a).chunk_owner < v.chunks
  pub marked : (a : ℕ) → a < v.slots → (v.metadata a).mark_value ≡ mark_front

abbrev pub with_slot : (ℕ → ℕ) → Option ℕ → ℕ → ℕ
with_slot out none a = out a
with_slot out (some s) a = (if s == a then 1 else 0) + out a

pub set_page-places :
    (v : ObjectPool) (p : ℕ) (page : ChunkPage) (a : ℕ)
    → p < v.chunks
    → places a (set_page v p page) + in_page a (v.pages p) ≡ places a v + in_page a page
set_page-places v p page a lt = omega (arith, sum-assign (in_page a) v.chunks v.pages p page lt)

module _ (v : ObjectPool) (out : ℕ → ℕ) (own : IsPooled v out) where
  take_slot-IsPooled : (t size s : ℕ) → IsPooled (take_slot t size s v) out
  take_slot-IsPooled t size s = record {
    once = own.once;
    current = own.current;
    owned = λ a lt. ground (arith, own.owned a lt);
    marked = λ a lt. ground (arith, own.marked a lt);
  }

  pub set_page-IsPooled :
      (p : ℕ) (page : ChunkPage) (out' : ℕ → ℕ)
      → p < v.chunks
      → ((a : ℕ) → in_page a page + out' a ≤ in_page a (v.pages p) + out a)
      → IsPooled (set_page v p page) out'
  set_page-IsPooled p page out' lt fewer = record {
    once = λ a. omega (arith, own.once a, fewer a, set_page-places v p page a lt);
    current = own.current;
    owned = own.owned;
    marked = own.marked;
  }

-- What a pop from a stack of a page gives.
pub fresh-cases :
    (t p size : ℕ) (v : ObjectPool)
    → ((pop_from_fresh_slot t p size v ≡ (none, v)) × (contents (v.pages p).fresh_slots ≡ []))
      ⊎ ((s : ℕ) × (st : PointerStack ℕ) × (contents (v.pages p).fresh_slots ≡ s ∷ contents st)
          × (pop_from_fresh_slot t p size v ≡ (
            some s,
            take_slot t size s (set_page v p (record (v.pages p) { fresh_slots = st })),
          )))
unfolding pop_from_fresh_slot
fresh-cases t p size v = elim (Bool-cases (empty (v.pages p).fresh_slots)) [
  | inl e ↦ inl (rw e refl, (stack_lem 1 (v.pages p).fresh_slots 0 (omega arith)).3.0 e)
  | inr e ↦ elim (pop_lem (v.pages p).fresh_slots) [
    | inl (none_held, is) ↦ inl (rw (e, is) refl, none_held)
    | inr (s, st, is, held) ↦ inr (s, st, held, rw (e, is, is) refl)
  ]
]

pub recycled-cases :
    (t p size : ℕ) (v : ObjectPool)
    → (pop_from_recycled_slots t p size v ≡ (none, v))
      ⊎ ((s : ℕ) × (st : PointerStack ℕ) × (contents (v.pages p).recycled_slots ≡ s ∷ contents st)
          × (pop_from_recycled_slots t p size v ≡ (
            some s,
            take_slot t size s (set_page v p (record (v.pages p) { recycled_slots = st })),
          )))
unfolding pop_from_recycled_slots
recycled-cases t p size v = elim (Bool-cases (empty (v.pages p).recycled_slots)) [
  | inl e ↦ inl (rw e refl)
  | inr e ↦ elim (pop_lem (v.pages p).recycled_slots) [
    | inl (none_held, is) ↦ inl (rw (e, is) refl)
    | inr (s, st, is, held) ↦ inr (s, st, held, rw (e, is, is) refl)
  ]
]

-- A result of an allocation: the clients have the slot that it gives.
abbrev pub IsTaken : (ℕ → ℕ) → Option ℕ × ObjectPool → Type 0
IsTaken out (found, v) = IsPooled v (with_slot out found)

module _ (t p size : ℕ) (v : ObjectPool) (out : ℕ → ℕ) (own : IsPooled v out)
    (lt : p < v.chunks) where
  fresh-IsTaken : IsTaken out (pop_from_fresh_slot t p size v)
  fresh-IsTaken = elim (fresh-cases t p size v) [
    | inl (e, none_held) ↦ subst (IsTaken out) (sym e) own
    | inr (s, st, held, e) ↦ subst (IsTaken out) (sym e) (
        let page = record (v.pages p) { fresh_slots = st } in
        take_slot-IsPooled (set_page v p page) (with_slot out (some s))
          (set_page-IsPooled v out own p page (with_slot out (some s)) lt
            (λ a. omega (arith, ap (occurrences a) held)))
          t size s)
  ]

or_else-IsTaken :
    (out : ℕ → ℕ) (r other : Option ℕ × ObjectPool)
    → IsTaken out r
    → IsTaken out other
    → IsTaken out (or_else r other)
or_else-IsTaken out (none, v) other h k = k
or_else-IsTaken out (some s, v) other h k = h

module _ (t p size : ℕ) (v : ObjectPool) (out : ℕ → ℕ) (own : IsPooled v out)
    (lt : p < v.chunks) where
  recycled-IsTaken : IsTaken out (pop_from_recycled_slots t p size v)
  recycled-IsTaken = elim (recycled-cases t p size v) [
    | inl e ↦ subst (IsTaken out) (sym e) own
    | inr (s, st, held, e) ↦ subst (IsTaken out) (sym e) (
        let page = record (v.pages p) { recycled_slots = st } in
        take_slot-IsPooled (set_page v p page) (with_slot out (some s))
          (set_page-IsPooled v out own p page (with_slot out (some s)) lt
            (λ a. omega (arith, ap (occurrences a) held)))
          t size s)
  ]

  steal-IsPooled :
      (l : List (PointerStack ℕ))
      → v.global_batch_stack ≡ l
      → IsTaken out (after_steal t p size (steal_from p v l))
  unfolding steal_from
  steal-IsPooled [] is = own
  steal-IsPooled (batch ∷ rest) is =
      let page = record (v.pages p) { fresh_slots = batch } in
      let v' = record v { global_batch_stack = rest } in
      fresh-IsTaken t p size (set_page v' p page) out
        (record {
          once =
              λ a. omega (arith, own.once a, set_page-places v' p page a lt, ap (in_batches a) is);
          current = own.current;
          owned = own.owned;
          marked = own.marked;
        })
        lt

  pub alloc_here-IsTaken : IsTaken out (alloc_here t p size v)
  unfolding alloc_here try_steal_from_global
  alloc_here-IsTaken =
      or_else-IsTaken out (pop_from_fresh_slot t p size v) _ (fresh-IsTaken t p size v out own lt) (
        or_else-IsTaken out (pop_from_recycled_slots t p size v) _ recycled-IsTaken
          (steal-IsPooled v.global_batch_stack refl))
