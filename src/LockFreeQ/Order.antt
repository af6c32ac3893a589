-- ===== src/LockFreeQ/Order.antt =====
-- The order of the items in a LockFreeQ over its steps (ServerCore/Memory/LockFreeQ.h).
use mmoserver.Shared.{ℕ, ◌+◌, ◌<◌, ◌≡◌, ◌≢◌, some, ◌∷◌, ◌++◌, arith, refl, subst, [], sym, []}
use mmoserver.Families.{assign, weight-le-sum, weights-le-sum, assign-elim}
use mmoserver.LockFreeQ.Defs.{without_first, Link, null, tag, node, Memory, Phase}
use mmoserver.LockFreeQ.System.{
  set_rear, Move, alloc, fill, new_tag, stamp, read_rear_id, cas1_win, help_tail, help_node,
  help_id, help_win, help_lose, read_own, cas2_win, count, reserve, fall_short, restore, next_node,
  read_data, deq_win, carries, uses,
}
use mmoserver.LockFreeQ.Shape.{last_in}
use mmoserver.LockFreeQ.Writes.{at_extra}
use mmoserver.LockFreeQ.Local.{IsCurrent, stamping, Inv}
use mmoserver.LockFreeQ.Nodes.{carried, carried_once}
use mmoserver.LockFreeQ.Moves.{cas1_found, help_found, Move-Shape}
use mmoserver.LockFreeQ.Places.{Move-single, Move-stamped, Move-IsSized, Move-IsLinker}
use mmoserver.LockFreeQ.Current.{
  fill-IsCurrent, write-IsCurrent, link-IsCurrent, rear-IsCurrent, front-IsCurrent, count-IsCurrent,
}

module _ {A : Type 0} {n : ℕ} {m : Memory A} {phase : ℕ → Phase A} (inv : Inv n m phase) where
  rear_apart : (j : ℕ) → j < n → carries m.rear_ptr (phase j) ≡ 0
  rear_apart j jlt = ground (
    arith,
    inv.single m.rear_ptr,
    last_in m.next m.rear_ptr m.front_ptr m.rear_ptr m.nodes inv.shape.path,
    weight-le-sum (carries m.rear_ptr) n phase j jlt,
  )

  rear_others :
      (q : ℕ) (c : Link)
      → m.extra ≡ some q
      → m.next q ≡ c
      → (j : ℕ) → j < n
      → IsCurrent (set_rear m q c) (phase j)
  rear_others q c is at j jlt =
      let (behind, (k, e, tagged, new)) = at_extra inv.shape q c is at in
      subst (λ t. IsCurrent (set_rear m q t) (phase j)) (sym e)
        (rear-IsCurrent inv.shape q k tagged new (phase j) (inv.current j jlt))

module _ {A : Type 0} {n : ℕ} {m : Memory A} {phase : ℕ → Phase A} (inv : Inv n m phase) (i : ℕ)
    (lt : i < n) where
  stamped_once : (j k : ℕ) → j < n → i ≢ j → stamping k (phase i) ≡ 1 → stamping k (phase j) ≡ 0
  stamped_once j k jlt ne one = grind (
    arith,
    inv.stamped k,
    weights-le-sum (stamping k) n phase i j,
    weights-le-sum (stamping k) n phase j i,
  )

module _ {A : Type 0} {blank : A} {max_count n : ℕ} {m : Memory A} {phase : ℕ → Phase A}
    (inv : Inv n m phase) (i : ℕ) (lt : i < n) where
  -- The other threads stay current,
  Move-others :
      {p p' : Phase A} {m' : Memory A}
      → Move blank max_count (λ x. uses x n m phase ≡ 0) m p m' p'
      → phase i ≡ p
      → IsCurrent m p
      → (j : ℕ) → j < n
      → i ≢ j
      → IsCurrent m' (phase j)
  Move-others (alloc x room unused) e c j jlt ne =
      write-IsCurrent inv.shape x null (assign m.content x blank) (ground arith)
        (λ y off. ground arith) (phase j) (ground (arith, weight-le-sum (carries x) n phase j jlt))
        (λ k is. absurd (cc)) (inv.current j jlt)
  Move-others (fill {d} {x}) e c j jlt ne =
      fill-IsCurrent inv.shape x (assign m.content x d) (carried inv i lt x (ground arith))
        (λ y off. ground arith) (phase j) (carried_once inv i lt j x jlt ne (ground arith))
        (inv.current j jlt)
  Move-others (stamp {d} {x} {k}) e c j jlt ne =
      write-IsCurrent inv.shape x (tag k) m.content (carried inv i lt x (ground arith))
        (λ y off. refl) (phase j) (carried_once inv i lt j x jlt ne (ground arith))
        (λ l is. stamped_once inv i lt j l jlt ne (ground arith)) (inv.current j jlt)
  Move-others (cas1_win {d} {x} {k} {p} f) e c j jlt ne =
      let (rear, alone, check) = cas1_found inv f c in
      subst
        (λ r.
          IsCurrent
            (record m {
              next = assign m.next r (node x);
              extra = some x;
              enqueued = m.enqueued ++ d ∷ [];
            })
            (phase j))
        rear
        (link-IsCurrent inv.shape x (m.enqueued ++ d ∷ []) alone (phase j) (rear_apart inv j jlt)
          (inv.current j jlt))
  Move-others (help_win {q = q} {c' = c'} f g) e c j jlt ne =
      let (is, at) = help_found inv f g c in rear_others inv q c' is at j jlt
  Move-others (cas2_win {x = x} {c' = c'} f g) e c j jlt ne =
      rear_others inv x c' (c.1 g).1 (c.1 g).2 j jlt
  Move-others (deq_win {i = a} {q} {v} f g) e c j jlt ne =
      front-IsCurrent m q (a + 1) (without_first m.nodes) (m.dequeued ++ v ∷ []) (omega arith)
        (phase j) (inv.current j jlt)
  Move-others new_tag e c j jlt ne =
      count-IsCurrent m (m.rear_id + 1) m.added m.removed (phase j) (inv.current j jlt)
  Move-others count e c j jlt ne =
      count-IsCurrent m m.rear_id (m.added + 1) m.removed (phase j) (inv.current j jlt)
  Move-others restore e c j jlt ne =
      count-IsCurrent m m.rear_id (m.added + 1) m.removed (phase j) (inv.current j jlt)
  Move-others (reserve h) e c j jlt ne =
      count-IsCurrent m m.rear_id m.added (m.removed + 1) (phase j) (inv.current j jlt)
  Move-others (fall_short h) e c j jlt ne =
      count-IsCurrent m m.rear_id m.added (m.removed + 1) (phase j) (inv.current j jlt)
  Move-others mv e c j jlt ne = inv.current j jlt

  -- and so does the thread that moves.
  Move-self :
      {p p' : Phase A} {m' : Memory A}
      → Move blank max_count (λ x. uses x n m phase ≡ 0) m p m' p'
      → IsCurrent m p
      → IsCurrent m' p'
  Move-self new_tag c = (
    c,
    λ p f. omega (arith, inv.shape.bounded p (m.rear_id + 1) f),
    ground (arith, inv.shape.seen_bounded (m.rear_id + 1)),
  )
  Move-self read_rear_id c = (c, inv.shape.rear_seen)
  Move-self (help_tail f) c = c.0
  Move-self (help_node f) c = (c.0, c.1, λ g h. f)
  Move-self help_id c = (c.0, c.1, λ g h. (c.2 g h, refl))
  Move-self (help_win f g) c = c.0
  Move-self (help_lose d) c = c.0
  Move-self (cas1_win f) c = (c.1, λ g. ((cas1_found inv f c).0, refl))
  Move-self read_own c = (c.0, λ g. ((c.1 g).0, (c.1 g).1, refl))
  Move-self (next_node f) c = (c, λ g h. f)
  Move-self read_data c = (c.0, λ g h. (c.1 g h, refl))
  Move-self mv c = ground arith

  pub Move-Inv :
      {p p' : Phase A} {m' : Memory A}
      → Move blank max_count (λ x. uses x n m phase ≡ 0) m p m' p'
      → phase i ≡ p
      → Inv n m' (assign phase i p')
  Move-Inv {p} {p'} {m'} mv e = record {
    shape = Move-Shape inv i lt mv e own;
    single = Move-single inv i lt mv e own;
    stamped = Move-stamped inv i lt mv e;
    current = λ j jlt.
        assign-elim (IsCurrent m') phase i j p' (λ same. Move-self mv own)
          (Move-others mv e own j jlt);
    sizes = Move-IsSized inv i lt mv e own;
    linker = Move-IsLinker inv i lt mv e own;
  }
    where
      own : IsCurrent m p
      own = subst (IsCurrent m) e (inv.current i lt)
