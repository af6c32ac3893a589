-- ===== src/ObjectPool/Reach.antt =====
-- An ObjectPool and its clients, in any order of calls (ServerCore/Memory/Chunk.h, ObjectPool.h).
use mmoserver.Shared.{
  ℕ, suc, ◌-◌, ◌<◌, ◌≡◌, some, ◌==◌, if◌then◌else◌, arith, Option-cases, subst, inl, inr,
}
use mmoserver.Families.{sum}
use mmoserver.ObjectPool.Defs.{
  ChunkMetadata, ObjectPool, chunk_alloc, own_chunk, alloc, free, no_pages,
}
use mmoserver.ObjectPool.Places.{IsPooled, with_slot}
use mmoserver.ObjectPool.Pages.{chunk_alloc-IsPooled}
use mmoserver.ObjectPool.Ownership.{IsGiven, own_chunk-IsPooled, page_alloc-IsGiven, free-IsPooled}

-- The clients have slot `a` `out a` times; a client gives back only what it has.
pub data Reach (slot_count : ℕ) : ObjectPool → (ℕ → ℕ) → Type 0 where
  start :
      (t : ℕ) (memory : ℕ → ChunkMetadata)
      → Reach slot_count (chunk_alloc slot_count t (no_pages memory)).1 (λ a. 0)
  allocated :
      {v v' : ObjectPool} {out : ℕ → ℕ} {s : ℕ} (t size : ℕ)
      → Reach slot_count v out
      → alloc slot_count 2 t size v ≡ some (s, v')
      → Reach slot_count v' (with_slot out (some s))
  freed :
      {v v' : ObjectPool} {out : ℕ → ℕ} (t s : ℕ)
      → Reach slot_count v out
      → 0 < out s
      → free slot_count t s v ≡ some v'
      → Reach slot_count v' (λ a. out a - (if s == a then 1 else 0))

module _ (slot_count : ℕ) (some_slots : 0 < slot_count) where
  alloc-IsGiven :
      (fuel t size : ℕ) (v : ObjectPool) (out : ℕ → ℕ)
      → IsPooled v out
      → IsGiven out (alloc slot_count (suc (suc fuel)) t size v)
  unfolding alloc
  alloc-IsGiven fuel t size v out own =
      let (own', lt) = own_chunk-IsPooled slot_count some_slots t v out own in
      page_alloc-IsGiven slot_count some_slots (suc fuel) t (own_chunk slot_count t v).0 size
        (own_chunk slot_count t v).1 out own' lt (λ e. omega arith)

  -- In every reachable state of a pool with slots in its pages each slot is at most once in the fresh
  -- and recycled slots of the pages, the batches and the clients' hands together, the slots there are
  -- those that were made, and each thread's page and each slot's owner is a page that was made.
  pub Reach-IsPooled : {v : ObjectPool} {out : ℕ → ℕ} → Reach slot_count v out → IsPooled v out
  unfolding sum
  Reach-IsPooled (start t memory) =
      (chunk_alloc-IsPooled slot_count some_slots t (no_pages memory) (λ a. 0)
        (record {
          once = λ a. ground arith;
          current = λ u p e. absurd (cc);
          owned = λ a lt. absurd (omega arith);
          marked = λ a lt. absurd (omega arith);
        })).0
  Reach-IsPooled (allocated {v} {v'} {out} {s} t size r e) =
      subst (IsGiven out) e (alloc-IsGiven 0 t size v out (Reach-IsPooled r))
  Reach-IsPooled (freed {v} {v'} {out} t s r has e) =
      let own = Reach-IsPooled r in
      let (w, is, pooled) =
        free-IsPooled slot_count some_slots t s v (λ a. out a - (if s == a then 1 else 0))
          (record {
            once = λ a. ground (arith, own.once a);
            current = own.current;
            owned = own.owned;
            marked = own.marked;
          }) in
      let same : w ≡ v' = cc in
      subst (λ x. IsPooled x (λ a. out a - (if s == a then 1 else 0))) same pooled

  -- In every reachable state of a pool with slots in its pages Alloc, with fuel for one page that it
  -- makes, returns, and gives a slot that no client has.
  pub alloc_unused :
      {v : ObjectPool} {out : ℕ → ℕ} (fuel t size : ℕ)
      → Reach slot_count v out
      → (s : ℕ) × (v' : ObjectPool) × (alloc slot_count (suc (suc fuel)) t size v ≡ some (s, v'))
        × (out s ≡ 0)
  alloc_unused {v} {out} fuel t size r =
      elim (Option-cases (alloc slot_count (suc (suc fuel)) t size v)) [
        | inl e ↦
            absurd (subst (IsGiven out) e (alloc-IsGiven fuel t size v out (Reach-IsPooled r)))
        | inr ((s, v'), e) ↦
            let given =
              subst (IsGiven out) e (alloc-IsGiven fuel t size v out (Reach-IsPooled r)) in
            (s, v', e, ground (arith, given.once s))
      ]
