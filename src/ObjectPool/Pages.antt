-- ===== src/ObjectPool/Pages.antt =====
-- The pages that an ObjectPool makes (ServerCore/Memory/Chunk.h, ObjectPool.h).
use mmoserver.Shared.{
  refl, ℕ, zero, suc, ◌+◌, ◌≤◌, ◌<◌, ◌≡◌, ◌∷◌, ◌==◌, ltb, leb, if◌then◌else◌, arith, refl, inl, inr,
  length, ◌⊎◌, ap, ◌∙◌,
}
use mmoserver.Families.{assign, occurrences, assign-elim, sum-last, sum-assign_of_le}
use mmoserver.LockFree.FreeList.{mark_front}
use mmoserver.PointerStack.{PointerStack, contents, push_lem}
use mmoserver.ObjectPool.Defs.{
  ChunkMetadata, push_slot, construct_loop, or_same, chunk_alloc, ObjectPool, empty_stack,
  ChunkPage,
}
use mmoserver.ObjectPool.Places.{in_stack, IsPooled, in_page}

-- Whether `a` is one of the `n` slots from `s` on.
abbrev pub in_range : ℕ → ℕ → ℕ → ℕ
in_range s n a = if leb s a then (if ltb a (s + n) then 1 else 0) else 0

module _ (slot_count : ℕ) (some_slots : 0 < slot_count) where
  pub push_slot-cases :
      (st : PointerStack ℕ) (s : ℕ)
      → ((push_slot slot_count st s ≡ st) × (slot_count ≤ length (contents st)))
        ⊎ (contents (push_slot slot_count st s) ≡ s ∷ contents st)
  unfolding push_slot
  push_slot-cases st s = elim (push_lem slot_count st s some_slots) [
    | inl (is_full, e) ↦ inl (ap (or_same st) e, is_full)
    | inr (st', e, held, le) ↦ inr (ap (λ r. contents (or_same st r)) e ∙ held)
  ]

  pub push_slot-in :
      (st : PointerStack ℕ) (s a : ℕ)
      → in_stack a (push_slot slot_count st s) ≤ (if s == a then 1 else 0) + in_stack a st
  push_slot-in st s a = elim (push_slot-cases st s) [
    | inl (e, is_full) ↦ omega (arith, ap (in_stack a) e)
    | inr e ↦ omega (arith, ap (occurrences a) e)
  ]

  pub push_slot-grows :
      (st : PointerStack ℕ) (s : ℕ) → (0 < length (contents (push_slot slot_count st s)))
  push_slot-grows st s = elim (push_slot-cases st s) [
    | inl (e, is_full) ↦ omega (arith, ap (λ t. length (contents t)) e)
    | inr e ↦ omega (arith, ap length e)
  ]

  construct_loop-in :
      (t p n s : ℕ) (metadata : ℕ → ChunkMetadata) (st : PointerStack ℕ) (a : ℕ)
      → in_stack a (construct_loop slot_count t p n s metadata st).1
        ≤ in_range s n a + in_stack a st
  unfolding construct_loop
  construct_loop-in t p zero s metadata st a = ground arith
  construct_loop-in t p (suc n) s metadata st a = ground (
    arith,
    construct_loop-in t p n (s + 1)
        (assign metadata s (record {
          chunk_owner = p;
          mark_value = mark_front;
          size = (metadata s).size;
          alloc_thread = t;
        }))
        (push_slot slot_count st s) a,
    push_slot-in st s a,
  )

  construct_loop-some :
      (t p n s : ℕ) (metadata : ℕ → ChunkMetadata) (st : PointerStack ℕ)
      → 0 < length (contents st)
      → 0 < length (contents (construct_loop slot_count t p n s metadata st).1)
  unfolding construct_loop
  construct_loop-some t p zero s metadata st h = h
  construct_loop-some t p (suc n) s metadata st h =
      construct_loop-some t p n (s + 1) _ _ (push_slot-grows st s)

  construct_loop-first :
      (t p n s : ℕ) (metadata : ℕ → ChunkMetadata) (st : PointerStack ℕ)
      → 0 < n
      → 0 < length (contents (construct_loop slot_count t p n s metadata st).1)
  unfolding construct_loop
  construct_loop-first t p zero s metadata st h = absurd (omega arith)
  construct_loop-first t p (suc n) s metadata st h =
      construct_loop-some t p n (s + 1) _ _ (push_slot-grows st s)

  construct_loop-owner :
      (t p n s : ℕ) (metadata : ℕ → ChunkMetadata) (st : PointerStack ℕ) (a : ℕ)
      → ((construct_loop slot_count t p n s metadata st).0 a).chunk_owner ≡ (
          if leb s a
          then (if ltb a (s + n) then p else (metadata a).chunk_owner)
          else (metadata a).chunk_owner)
  unfolding construct_loop
  construct_loop-owner t p zero s metadata st a = ground arith
  construct_loop-owner t p (suc n) s metadata st a = ground (
    arith,
    construct_loop-owner t p n (s + 1)
        (assign metadata s (record {
          chunk_owner = p;
          mark_value = mark_front;
          size = (metadata s).size;
          alloc_thread = t;
        }))
        (push_slot slot_count st s) a,
  )

  construct_loop-marked :
      (t p n s : ℕ) (metadata : ℕ → ChunkMetadata) (st : PointerStack ℕ) (a : ℕ)
      → ((construct_loop slot_count t p n s metadata st).0 a).mark_value ≡ (
          if leb s a
          then (if ltb a (s + n) then mark_front else (metadata a).mark_value)
          else (metadata a).mark_value)
  unfolding construct_loop
  construct_loop-marked t p zero s metadata st a = ground arith
  construct_loop-marked t p (suc n) s metadata st a = ground (
    arith,
    construct_loop-marked t p n (s + 1)
        (assign metadata s (record {
          chunk_owner = p;
          mark_value = mark_front;
          size = (metadata s).size;
          alloc_thread = t;
        }))
        (push_slot slot_count st s) a,
  )

  pub chunk_alloc-some :
      (t : ℕ) (v : ObjectPool)
      → 0
        < length (
            contents
              ((chunk_alloc slot_count t v).1.pages (chunk_alloc slot_count t v).0).fresh_slots)
  unfolding chunk_alloc
  chunk_alloc-some t v =
      let (metadata, fresh) =
        construct_loop slot_count t v.chunks slot_count v.slots v.metadata empty_stack in
      assign-elim (λ page. 0 < length (contents page.fresh_slots)) v.pages v.chunks v.chunks
        (record { fresh_slots = fresh; recycled_slots = empty_stack })
        (λ same.
          construct_loop-first t v.chunks slot_count v.slots v.metadata empty_stack some_slots)
        (λ ne. absurd (ne refl))

  pub chunk_alloc-IsPooled :
      (t : ℕ) (v : ObjectPool) (out : ℕ → ℕ)
      → IsPooled v out
      → IsPooled (chunk_alloc slot_count t v).1 out
        × ((chunk_alloc slot_count t v).0 < (chunk_alloc slot_count t v).1.chunks)
  unfolding chunk_alloc
  chunk_alloc-IsPooled t v out own = (
    record {
      once = λ a.
          let page : ChunkPage = record {
            fresh_slots =
                (construct_loop slot_count t v.chunks slot_count v.slots v.metadata empty_stack).1;
            recycled_slots = empty_stack;
          } in
          ground (
            arith,
            own.once a,
            sum-last (in_page a) v.chunks (assign v.pages v.chunks page),
            sum-assign_of_le (in_page a) v.chunks v.pages v.chunks page,
            construct_loop-in t v.chunks slot_count v.slots v.metadata empty_stack a,
          );
      current = λ u p e. ground (arith, own.current u p);
      owned = λ a lt. ground (
        arith,
        own.owned a,
        construct_loop-owner t v.chunks slot_count v.slots v.metadata empty_stack a,
      );
      marked = λ a lt. ground (
        arith,
        own.marked a,
        construct_loop-marked t v.chunks slot_count v.slots v.metadata empty_stack a,
      );
    },
    omega arith,
  )
