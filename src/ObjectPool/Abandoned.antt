-- ===== src/ObjectPool/Abandoned.antt =====
-- Pages of an ObjectPool that no thread has any more (ServerCore/Memory/Chunk.h, ObjectPool.h).
use mmoserver.Shared.{
  ℕ, zero, suc, ◌<◌, ◌≡◌, ◌≢◌, Option, none, some, List, [], ◌∷◌, arith, refl, inl, inr, subst, ◌∙◌,
  ap, sym,
}
use mmoserver.PointerStack.{PointerStack}
use mmoserver.ObjectPool.Defs.{
  ChunkPage, ObjectPool, set_page, chunk_alloc, steal_from, try_steal_from_global, after_steal,
  alloc_here, or_rest, or_else, page_alloc, chunk_or_new, own_chunk, alloc, pop_from_fresh_slot,
  pop_from_recycled_slots,
}
use mmoserver.ObjectPool.Places.{fresh-cases, recycled-cases}

-- Page `p` was made, no thread has it, and it is as `page` says.
abbrev pub IsAside : ℕ → ChunkPage → ObjectPool → Type 0
IsAside p page v = (p < v.chunks) × ((u : ℕ) → v.tls u ≢ some p) × (v.pages p ≡ page)

abbrev pub GivesAside : ℕ → ChunkPage → Option (ℕ × ObjectPool) → Type 0
GivesAside p page none = Unit
GivesAside p page (some (s, v)) = IsAside p page v

module _ (p : ℕ) (page : ChunkPage) where
  set_page-IsAside :
      (v : ObjectPool) (q : ℕ) (other : ChunkPage)
      → q ≢ p
      → IsAside p page v
      → IsAside p page (set_page v q other)
  set_page-IsAside v q other ne (made, nobody, is) = (made, nobody, ground arith)

  fresh-IsAside :
      (t q size : ℕ) (v : ObjectPool)
      → q ≢ p
      → IsAside p page v
      → IsAside p page (pop_from_fresh_slot t q size v).1
  fresh-IsAside t q size v ne h = elim (fresh-cases t q size v) [
    | inl (e, none_held) ↦ subst (λ r. IsAside p page r.1) (sym e) h
    | inr (s, st, held, e) ↦
        subst (λ r. IsAside p page r.1) (sym e)
          (set_page-IsAside v q (record (v.pages q) { fresh_slots = st }) ne h)
  ]

  recycled-IsAside :
      (t q size : ℕ) (v : ObjectPool)
      → q ≢ p
      → IsAside p page v
      → IsAside p page (pop_from_recycled_slots t q size v).1
  recycled-IsAside t q size v ne h = elim (recycled-cases t q size v) [
    | inl e ↦ subst (λ r. IsAside p page r.1) (sym e) h
    | inr (s, st, held, e) ↦
        subst (λ r. IsAside p page r.1) (sym e)
          (set_page-IsAside v q (record (v.pages q) { recycled_slots = st }) ne h)
  ]

  steal-IsAside :
      (t q size : ℕ) (v : ObjectPool) (l : List (PointerStack ℕ))
      → q ≢ p
      → IsAside p page v
      → IsAside p page (after_steal t q size (steal_from q v l)).1
  unfolding steal_from
  steal-IsAside t q size v [] ne h = h
  steal-IsAside t q size v (batch ∷ rest) ne h =
      let v' : ObjectPool = record v { global_batch_stack = rest } in
      fresh-IsAside t q size (set_page v' q (record (v.pages q) { fresh_slots = batch })) ne
        (set_page-IsAside v' q (record (v.pages q) { fresh_slots = batch }) ne h)

  or_else-IsAside :
      (r other : Option ℕ × ObjectPool)
      → IsAside p page r.1
      → IsAside p page other.1
      → IsAside p page (or_else r other).1
  or_else-IsAside (none, v) other h k = k
  or_else-IsAside (some s, v) other h k = h

  alloc_here-IsAside :
      (t q size : ℕ) (v : ObjectPool)
      → q ≢ p
      → IsAside p page v
      → IsAside p page (alloc_here t q size v).1
  unfolding alloc_here try_steal_from_global
  alloc_here-IsAside t q size v ne h =
      or_else-IsAside (pop_from_fresh_slot t q size v) _ (fresh-IsAside t q size v ne h) (
        or_else-IsAside (pop_from_recycled_slots t q size v) _ (recycled-IsAside t q size v ne h)
          (steal-IsAside t q size v v.global_batch_stack ne h))

  module _ (slot_count : ℕ) where
    chunk_alloc-IsAside :
        (t : ℕ) (v : ObjectPool)
        → IsAside p page v
        → IsAside p page (chunk_alloc slot_count t v).1 × ((chunk_alloc slot_count t v).0 ≢ p)
    unfolding chunk_alloc
    chunk_alloc-IsAside t v (made, nobody, is) =
        ((omega arith, λ u. ground (arith, nobody u), ground arith), omega arith)

    own_chunk-IsAside :
        (t : ℕ) (v : ObjectPool)
        → IsAside p page v
        → IsAside p page (own_chunk slot_count t v).1 × ((own_chunk slot_count t v).0 ≢ p)
    own_chunk-IsAside t v h = go (v.tls t) refl
      where
        go :
            (x : Option ℕ)
            → v.tls t ≡ x
            → IsAside p page (chunk_or_new slot_count t v x).1
              × ((chunk_or_new slot_count t v x).0 ≢ p)
        go none e = chunk_alloc-IsAside t v h
        go (some q) e = (h, λ same. h.1 t (e ∙ ap some same))

    or_rest-GivesAside :
        (r : Option ℕ × ObjectPool) (rest : Option (ℕ × ObjectPool))
        → IsAside p page r.1
        → GivesAside p page rest
        → GivesAside p page (or_rest r rest)
    or_rest-GivesAside (none, v) rest h k = k
    or_rest-GivesAside (some s, v) rest h k = h

    page_alloc-GivesAside :
        (fuel t q size : ℕ) (v : ObjectPool)
        → q ≢ p
        → IsAside p page v
        → GivesAside p page (page_alloc slot_count fuel t q size v)
    unfolding page_alloc
    page_alloc-GivesAside zero t q size v ne h = tt
    page_alloc-GivesAside (suc fuel) t q size v ne h =
        let (made, other) =
          chunk_alloc-IsAside t (alloc_here t q size v).1 (alloc_here-IsAside t q size v ne h) in
        or_rest-GivesAside (alloc_here t q size v) _ (alloc_here-IsAside t q size v ne h) (
          page_alloc-GivesAside fuel t (chunk_alloc slot_count t (alloc_here t q size v).1).0 size
            (chunk_alloc slot_count t (alloc_here t q size v).1).1 other made)

    -- A page that was made and that no thread has is left as it is by every allocation, and no thread
    -- has it afterwards.
    pub abandoned_lem :
        (fuel t size s : ℕ) (v v' : ObjectPool)
        → IsAside p page v
        → alloc slot_count fuel t size v ≡ some (s, v')
        → IsAside p page v'
    unfolding alloc
    abandoned_lem fuel t size s v v' h e =
        let (here, other) = own_chunk-IsAside t v h in
        subst (GivesAside p page) e (
          page_alloc-GivesAside fuel t (own_chunk slot_count t v).0 size
            (own_chunk slot_count t v).1 other here)
