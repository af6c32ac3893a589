-- ===== src/ObjectPool/Ownership.antt =====
-- The operations of an ObjectPool, one after the other (ServerCore/Memory/Chunk.h, ObjectPool.h).
use mmoserver.Shared.{
  ℕ, zero, suc, ◌<◌, ◌≡◌, ◌≢◌, Option, none, some, ◌∷◌, ◌==◌, arith, refl, inl, inr, length,
  Bool-cases, ap,
}
use mmoserver.PointerStack.{contents, full}
use mmoserver.ObjectPool.Defs.{
  ChunkPage, ObjectPool, set_page, push_slot, chunk_alloc, alloc_here, or_rest, or_else, page_alloc,
  chunk_or_new, own_chunk, recycle_at, recycled_to_my_local_pool, free, empty_stack,
  pop_from_fresh_slot,
}
use mmoserver.ObjectPool.Places.{
  IsPooled, IsTaken, with_slot, alloc_here-IsTaken, set_page-IsPooled, fresh-cases, set_page-places,
}
use mmoserver.ObjectPool.Pages.{push_slot-in, chunk_alloc-IsPooled, chunk_alloc-some}

-- What Alloc gives: a slot more with the clients.
abbrev pub IsGiven : (ℕ → ℕ) → Option (ℕ × ObjectPool) → Type 0
IsGiven out none = ⊥
IsGiven out (some (s, v)) = IsPooled v (with_slot out (some s))

or_rest-IsGiven :
    (out : ℕ → ℕ) (r : Option ℕ × ObjectPool) (rest : Option (ℕ × ObjectPool))
    → IsTaken out r
    → (r.0 ≡ none → IsGiven out rest)
    → IsGiven out (or_rest r rest)
or_rest-IsGiven out (none, v) rest h k = k refl
or_rest-IsGiven out (some s, v) rest h k = h

IsPooled-none :
    (out : ℕ → ℕ) (r : Option ℕ × ObjectPool) → IsTaken out r → r.0 ≡ none → IsPooled r.1 out
IsPooled-none out (none, v) h e = h
IsPooled-none out (some s, v) h e = absurd (cc)

or_else-some : (r other : Option ℕ × ObjectPool) (s : ℕ) → r.0 ≡ some s → (or_else r other).0 ≢ none
or_else-some (none, v) other s e f = absurd (cc)
or_else-some (some a, v) other s e f = absurd (cc)

alloc_here-some :
    (t p size : ℕ) (v : ObjectPool)
    → 0 < length (contents (v.pages p).fresh_slots)
    → (alloc_here t p size v).0 ≢ none
unfolding alloc_here
alloc_here-some t p size v h e = elim (fresh-cases t p size v) [
  | inl (is, empty) ↦ absurd (omega (arith, ap length empty))
  | inr (s, st, held, is) ↦
      absurd (or_else-some (pop_from_fresh_slot t p size v) _ s (ap (λ r. r.0) is) e)
]

module _ (slot_count : ℕ) (some_slots : 0 < slot_count) where
  pub page_alloc-IsGiven :
      (fuel t p size : ℕ) (v : ObjectPool) (out : ℕ → ℕ)
      → IsPooled v out
      → p < v.chunks
      → ((alloc_here t p size v).0 ≡ none → 0 < fuel)
      → IsGiven out (page_alloc slot_count (suc fuel) t p size v)
  unfolding page_alloc
  page_alloc-IsGiven zero t p size v out own lt enough =
      or_rest-IsGiven out (alloc_here t p size v) _ (alloc_here-IsTaken t p size v out own lt)
        (λ e. absurd (omega (arith, enough e)))
  page_alloc-IsGiven (suc fuel) t p size v out own lt enough =
      or_rest-IsGiven out (alloc_here t p size v) _ (alloc_here-IsTaken t p size v out own lt) (λ e.
        let v' = (alloc_here t p size v).1 in
        let own' =
          IsPooled-none out (alloc_here t p size v) (alloc_here-IsTaken t p size v out own lt) e in
        let (made, below) = chunk_alloc-IsPooled slot_count some_slots t v' out own' in
        page_alloc-IsGiven fuel t (chunk_alloc slot_count t v').0 size
          (chunk_alloc slot_count t v').1 out made below
          (λ f. absurd (
            alloc_here-some t (chunk_alloc slot_count t v').0 size (chunk_alloc slot_count t v').1
              (chunk_alloc-some slot_count some_slots t v') f)))

  pub own_chunk-IsPooled :
      (t : ℕ) (v : ObjectPool) (out : ℕ → ℕ)
      → IsPooled v out
      → IsPooled (own_chunk slot_count t v).1 out
        × ((own_chunk slot_count t v).0 < (own_chunk slot_count t v).1.chunks)
  own_chunk-IsPooled t v out own = go (v.tls t) refl
    where
      go :
          (x : Option ℕ)
          → v.tls t ≡ x
          → IsPooled (chunk_or_new slot_count t v x).1 out
            × ((chunk_or_new slot_count t v x).0 < (chunk_or_new slot_count t v x).1.chunks)
      go none e = chunk_alloc-IsPooled slot_count some_slots t v out own
      go (some p) e = (own, own.current t p e)

  recycle_at-IsPooled :
      (p s : ℕ) (v : ObjectPool) (out : ℕ → ℕ)
      → IsPooled v (with_slot out (some s))
      → p < v.chunks
      → IsPooled (recycle_at slot_count p s v) out
  unfolding recycle_at
  recycle_at-IsPooled p s v out own lt =
      let page = v.pages p in
      let recycled = push_slot slot_count page.recycled_slots s in
      elim (Bool-cases (full slot_count recycled)) [
        | inl is_full ↦
            let emptied : ChunkPage = record page { recycled_slots = empty_stack } in
            let v' : ObjectPool = record v {
              global_batch_stack = recycled ∷ v.global_batch_stack;
            } in
            rw is_full (record {
              once = λ a. omega (
                arith,
                own.once a,
                set_page-places v' p emptied a lt,
                push_slot-in slot_count some_slots page.recycled_slots s a,
              );
              current = own.current;
              owned = own.owned;
              marked = own.marked;
            })
        | inr room ↦
            let filled : ChunkPage = record page { recycled_slots = recycled } in
            rw room (
              set_page-IsPooled v (with_slot out (some s)) own p filled out lt
                (λ a. omega (arith, push_slot-in slot_count some_slots page.recycled_slots s a)))
      ]

  -- A client gives slot `s` back.
  pub free-IsPooled :
      (t s : ℕ) (v : ObjectPool) (out : ℕ → ℕ)
      → IsPooled v (with_slot out (some s))
      → (v' : ObjectPool) × (free slot_count t s v ≡ some v') × IsPooled v' out
  unfolding free recycled_to_my_local_pool
  free-IsPooled t s v out own =
      let slot = v.metadata s in
      let page = v.pages slot.chunk_owner in
      let made : s < v.slots = ground (arith, own.once s) in
      let freed : ChunkPage = record page {
        fresh_slots = push_slot slot_count page.fresh_slots s;
      } in
      elim (Bool-cases (slot.alloc_thread == t)) [
        | inl own_slot ↦ (
          set_page v slot.chunk_owner freed,
          rw (own.marked s made, own_slot) refl,
          set_page-IsPooled v (with_slot out (some s)) own slot.chunk_owner freed out
              (own.owned s made)
              (λ a. omega (arith, push_slot-in slot_count some_slots page.fresh_slots s a)),
        )
        | inr other ↦
            let (own', lt) = own_chunk-IsPooled t v (with_slot out (some s)) own in
            (
              recycled_to_my_local_pool slot_count t s v,
              rw (own.marked s made, other) refl,
              recycle_at-IsPooled (own_chunk slot_count t v).0 s (own_chunk slot_count t v).1 out
                  own' lt,
            )
      ]
