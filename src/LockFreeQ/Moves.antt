-- ===== src/LockFreeQ/Moves.antt =====
-- The steps of EnQ and DeQ in a LockFreeQ: where the nodes are after each
-- (ServerCore/Memory/LockFreeQ.h).
use mmoserver.Shared.{
  ℕ, ◌+◌, ◌<◌, ◌≡◌, inl, inr, none, some, List, [], ◌∷◌, ◌++◌, arith, refl, ap, ◌∙◌, subst,
}
use mmoserver.Families.{assign, weight-le-sum}
use mmoserver.LockFreeQ.Defs.{Link, null, tag, node, Memory, Phase, enq_cas1, enq_help_cas, deq_cas}
use mmoserver.LockFreeQ.System.{
  count, restore, reserve, fall_short, uses, Move, alloc, fill, stamp, cas1_win, help_win, cas2_win,
  deq_win, new_tag, reserve, fall_short,
}
use mmoserver.LockFreeQ.Shape.{Shape, contents-assign}
use mmoserver.LockFreeQ.Writes.{
  cas1_at, behind_rear, write_Shape, link_Shape, rear_Shape, front_Shape, fill_Shape, count_Shape,
  tag_fresh,
}
use mmoserver.LockFreeQ.Local.{IsCurrent, stamping, Inv}
use mmoserver.LockFreeQ.Nodes.{carried, has_node}

-- What the successful exchanges find.
module _ {A : Type 0} {n : ℕ} {m : Memory A} {phase : ℕ → Phase A} (inv : Inv n m phase) where
  pub cas1_found :
      {d : A} {x k p : ℕ} {c : Link}
      → m.next p ≡ c
      → IsCurrent m (enq_cas1 d x k p c)
      → (m.rear_ptr ≡ p) × (m.extra ≡ none) × (m.rear_check ≡ c)
  cas1_found {p = p} {c} f (filled, seen) = cas1_at inv.shape p c f seen

  pub help_found :
      {d : A} {x k p q : ℕ} {c c' : Link}
      → m.rear_ptr ≡ p
      → m.rear_check ≡ c
      → IsCurrent m (enq_help_cas d x k p c q c')
      → (m.extra ≡ some q) × (m.next q ≡ c')
  help_found {q = q} f g (filled, seen, now) =
      (behind_rear inv.shape q (ap m.next f ∙ (now g f).0), (now g f).1)

  pub deq_found :
      (i : ℕ) {p j q : ℕ} {v : A}
      → i < n
      → m.front_ptr ≡ p
      → m.front_id ≡ j
      → phase i ≡ deq_cas p j q v
      → IsCurrent m (deq_cas p j q v)
      → ((l : List ℕ) × (m.nodes ≡ q ∷ l)) × (m.content q ≡ v)
  deq_found i {q = q} lt f g e (le, now) =
      (has_node inv i lt q (ground arith) (ap m.next f ∙ (now g f).0), (now g f).1)

module _ {A : Type 0} {blank : A} {max_count n : ℕ} {m : Memory A} {phase : ℕ → Phase A}
    (inv : Inv n m phase) (i : ℕ) (lt : i < n) where
  pub Move-Shape :
      {p p' : Phase A} {m' : Memory A}
      → Move blank max_count (λ x. uses x n m phase ≡ 0) m p m' p'
      → phase i ≡ p
      → IsCurrent m p
      → Shape m'
  Move-Shape (alloc x room unused) e c =
      write_Shape inv.shape x (ground arith) null (assign m.content x blank) (inl refl)
        (contents-assign m.content x blank m.nodes m.extra (ground arith))
  Move-Shape (fill {d} {x}) e c = fill_Shape inv.shape (assign m.content x d) (
      contents-assign m.content x d m.nodes m.extra
        (omega (arith, carried inv i lt x (ground arith))))
  Move-Shape new_tag e c = count_Shape inv.shape (m.rear_id + 1) m.added m.removed (omega arith)
  Move-Shape (stamp {d} {x} {k}) e c =
      write_Shape inv.shape x (carried inv i lt x (ground arith)) (tag k) m.content
        (inr (
          k,
          refl,
          c.2,
          ground (arith, inv.stamped k, weight-le-sum (stamping k) n phase i lt),
          c.1,
        ))
        refl
  Move-Shape (cas1_win {d} {x} {k} {p} f) e c =
      let (rear, alone, check) = cas1_found inv f c in
      let whole =
        link_Shape inv.shape x d (carried inv i lt x (ground arith))
          (ground (arith, inv.single m.rear_ptr)) alone
          (k, c.0.1, tag_fresh inv.shape x k (carried inv i lt x (ground arith)) c.0.1) c.0.0 in
      subst
        (λ r. Shape (record m {
          next = assign m.next r (node x);
          extra = some x;
          enqueued = m.enqueued ++ d ∷ [];
        }))
        rear whole
  Move-Shape (help_win {q = q} {c' = c'} f g) e c =
      let (is, at) = help_found inv f g c in rear_Shape inv.shape q c' is at
  Move-Shape (cas2_win {x = x} {c' = c'} f g) e c =
      let now = c.1 g in rear_Shape inv.shape x c' now.1 now.2
  Move-Shape (deq_win {i = j} {q = q} {v = v} f g) e c =
      let ((l, is), holds) = deq_found inv i lt f g e c in
      front_Shape inv.shape (j + 1) q v l is holds
  Move-Shape (count) e c = count_Shape inv.shape m.rear_id (m.added + 1) m.removed (omega arith)
  Move-Shape (restore) e c = count_Shape inv.shape m.rear_id (m.added + 1) m.removed (omega arith)
  Move-Shape (reserve h) e c = count_Shape inv.shape m.rear_id m.added (m.removed + 1) (omega arith)
  Move-Shape (fall_short h) e c =
      count_Shape inv.shape m.rear_id m.added (m.removed + 1) (omega arith)
  Move-Shape mv e c = inv.shape
