-- ===== src/LockFreeQ/Places.antt =====
-- The steps of EnQ and DeQ in a LockFreeQ: who has each node, and the count
-- (ServerCore/Memory/LockFreeQ.h).
use mmoserver.Shared.{
  ℕ, ◌+◌, ◌≤◌, ◌<◌, ◌≡◌, ◌≢◌, none, ◌∷◌, ◌++◌, if◌then◌else◌, arith, refl, leb, length, [], [],
  List, inl, subst, ap, inr, sym, ◌∙◌,
}
use mmoserver.Families.{assign, sum, sum-assign, weight-le-sum, occurrences-append, assign-elim}
use mmoserver.LockFreeQ.Defs.{Link, Memory, Phase, enq_linked}
use mmoserver.LockFreeQ.System.{
  reserve, carries, uses, Move, alloc, cas1_win, help_win, cas2_win, deq_win, new_tag, read_own,
  cas2_lose,
}
use mmoserver.LockFreeQ.Local.{
  IsCurrent, reserved, failing, linking, stamping, IsLinker, Inv, IsSized,
}
use mmoserver.LockFreeQ.Moves.{cas1_found, help_found, deq_found}

length-snoc : (q : ℕ) (l : List ℕ) → length (l ++ q ∷ []) ≡ length l + 1
length-snoc q [] = refl
length-snoc q (a ∷ l) = omega (arith, length-snoc q l)

module _ {A : Type 0} {n : ℕ} (phase : ℕ → Phase A) (i : ℕ) {p : Phase A} (p' : Phase A) where
  still :
      (r : Link)
      → phase i ≡ p
      → (IsLinker r p → IsLinker r p')
      → ((j : ℕ) × (j < n) × IsLinker r (phase j))
      → (j : ℕ) × (j < n) × IsLinker r (assign phase i p' j)
  still r e on (j, jlt, links) = (
    j,
    jlt,
    assign-elim (IsLinker r) phase i j p'
        (λ same. on (subst (IsLinker r) (ap phase (sym same) ∙ e) links)) (λ ne. links),
  )

module _ {A : Type 0} {blank : A} {max_count n : ℕ} {m : Memory A} {phase : ℕ → Phase A}
    (inv : Inv n m phase) (i : ℕ) (lt : i < n) where
  pub Move-single :
      {p p' : Phase A} {m' : Memory A}
      → Move blank max_count (λ x. uses x n m phase ≡ 0) m p m' p'
      → phase i ≡ p
      → IsCurrent m p
      → (a : ℕ) → uses a n m' (assign phase i p') ≤ 1
  Move-single {p' = p'} (alloc x room unused) e c a =
      ground (arith, inv.single a, unused, sum-assign (carries a) n phase i p' lt)
  Move-single {p' = p'} (cas1_win {x = x} f) e c a =
      ground (arith, inv.single a, (cas1_found inv f c).1, sum-assign (carries a) n phase i p' lt)
  Move-single {p' = p'} (help_win {q = q} f g) e c a = ground (
    arith,
    inv.single a,
    (help_found inv f g c).0,
    occurrences-append a m.nodes (q ∷ []),
    sum-assign (carries a) n phase i p' lt,
  )
  Move-single {p' = p'} (cas2_win {x = x} f g) e c a = ground (
    arith,
    inv.single a,
    (c.1 g).1,
    occurrences-append a m.nodes (x ∷ []),
    sum-assign (carries a) n phase i p' lt,
  )
  Move-single {p' = p'} (deq_win f g) e c a = ground (
    arith,
    inv.single a,
    ((deq_found inv i lt f g e c).0).1,
    sum-assign (carries a) n phase i p' lt,
  )
  Move-single {p' = p'} mv e c a =
      ground (arith, inv.single a, sum-assign (carries a) n phase i p' lt)

  pub Move-stamped :
      {p p' : Phase A} {m' : Memory A}
      → Move blank max_count (λ x. uses x n m phase ≡ 0) m p m' p'
      → phase i ≡ p
      → (t : ℕ) → sum (stamping t) n (assign phase i p') ≤ (if leb t m'.rear_id then 1 else 0)
  Move-stamped {p' = p'} (new_tag) e t =
      ground (arith, inv.stamped t, sum-assign (stamping t) n phase i p' lt)
  Move-stamped {p' = p'} mv e t =
      ground (arith, inv.stamped t, sum-assign (stamping t) n phase i p' lt)

  pub Move-IsSized :
      {p p' : Phase A} {m' : Memory A}
      → Move blank max_count (λ x. uses x n m phase ≡ 0) m p m' p'
      → phase i ≡ p
      → IsCurrent m p
      → IsSized n m' (assign phase i p')
  Move-IsSized {p' = p'} (cas1_win f) e c = ground (
    arith,
    inv.sizes,
    (cas1_found inv f c).1,
    sum-assign reserved n phase i p' lt,
    sum-assign failing n phase i p' lt,
    sum-assign linking n phase i p' lt,
  )
  Move-IsSized {p' = p'} (help_win {q = q} f g) e c = ground (
    arith,
    inv.sizes,
    (help_found inv f g c).0,
    length-snoc q m.nodes,
    sum-assign reserved n phase i p' lt,
    sum-assign failing n phase i p' lt,
    sum-assign linking n phase i p' lt,
  )
  Move-IsSized {p' = p'} (cas2_win {x = x} f g) e c = ground (
    arith,
    inv.sizes,
    (c.1 g).1,
    length-snoc x m.nodes,
    sum-assign reserved n phase i p' lt,
    sum-assign failing n phase i p' lt,
    sum-assign linking n phase i p' lt,
  )
  Move-IsSized {p' = p'} (deq_win f g) e c = ground (
    arith,
    inv.sizes,
    ((deq_found inv i lt f g e c).0).1,
    sum-assign reserved n phase i p' lt,
    sum-assign failing n phase i p' lt,
    sum-assign linking n phase i p' lt,
  )
  Move-IsSized {p' = p'} (reserve h) e c = ground (
    arith,
    inv.sizes,
    h,
    sum-assign reserved n phase i p' lt,
    sum-assign failing n phase i p' lt,
    sum-assign linking n phase i p' lt,
  )
  Move-IsSized {p' = p'} mv e c = ground (
    arith,
    inv.sizes,
    sum-assign reserved n phase i p' lt,
    sum-assign failing n phase i p' lt,
    sum-assign linking n phase i p' lt,
    weight-le-sum failing n phase i lt,
  )

  pub Move-IsLinker :
      {p p' : Phase A} {m' : Memory A}
      → Move blank max_count (λ x. uses x n m phase ≡ 0) m p m' p'
      → phase i ≡ p
      → IsCurrent m p
      → m'.extra ≢ none
      → (j : ℕ) × (j < n) × IsLinker m'.rear_check (assign phase i p' j)
  Move-IsLinker (cas1_win {x = x} {p = p} {c = c} f) e now more = (
    i,
    lt,
    assign-elim (IsLinker m.rear_check) phase i i (enq_linked x p c)
        (λ same. (cas1_found inv f now).2) (λ ne. absurd (ne refl)),
  )
  Move-IsLinker (help_win f g) e now more = absurd (more refl)
  Move-IsLinker (cas2_win f g) e now more = absurd (more refl)
  Move-IsLinker {p' = p'} read_own e now more =
      still phase i p' m.rear_check e (λ h. h) (inv.linker more)
  Move-IsLinker {p' = p'} (cas2_lose d) e now more =
      still phase i p' m.rear_check e
        (λ h. elim d [ inl off ↦ absurd (off (now.1 h).0) | inr off ↦ absurd (off h) ])
        (inv.linker more)
  Move-IsLinker {p' = p'} mv e now more =
      still phase i p' m.rear_check e (λ h. elim h [ ]) (inv.linker more)
