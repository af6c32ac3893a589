-- ===== src/LockFreeQ/Nodes.antt =====
-- The nodes that a thread has, and those that the threads share, in a LockFreeQ
-- (ServerCore/Memory/LockFreeQ.h).
use mmoserver.Shared.{
  ℕ, ◌<◌, ◌≡◌, ◌≢◌, inl, inr, List, ◌∷◌, arith, refl, subst, ◌∙◌, ap, Option-cases,
}
use mmoserver.Families.{weight-le-sum, weights-le-sum}
use mmoserver.LockFreeQ.Defs.{Link, node, Memory, Phase, enq_linked, enq_cas2}
use mmoserver.LockFreeQ.System.{carries}
use mmoserver.LockFreeQ.Shape.{List-cases, IsPath, in_queue}
use mmoserver.LockFreeQ.Local.{reserved, linking, IsLinker, Inv}

linker-linking : {A : Type 0} (r : Link) (p : Phase A) → IsLinker r p → linking p ≡ 1
linker-linking r (enq_linked x p c) h = refl
linker-linking r (enq_cas2 x p c c') h = refl
linker-linking r p h = elim h [ ]

module _ {A : Type 0} {n : ℕ} {m : Memory A} {phase : ℕ → Phase A} (inv : Inv n m phase) (i : ℕ)
    (lt : i < n) where
  pub carried : (x : ℕ) → carries x (phase i) ≡ 1 → in_queue x m.front_ptr m.nodes m.extra ≡ 0
  carried x one = omega (arith, inv.single x, weight-le-sum (carries x) n phase i lt)

  pub carried_once : (j x : ℕ) → j < n → i ≢ j → carries x (phase i) ≡ 1 → carries x (phase j) ≡ 0
  carried_once j x jlt ne one = grind (
    arith,
    inv.single x,
    weights-le-sum (carries x) n phase i j,
    weights-le-sum (carries x) n phase j i,
  )

  -- A thread that has counted down finds a node,
  pub some_node :
      reserved (phase i) ≡ 1
      → (q : ℕ) × (l : List ℕ) × (m.nodes ≡ q ∷ l) × (m.next m.front_ptr ≡ node q)
  some_node one = elim (List-cases m.nodes) [
    | inr (a, l, is) ↦
        (a, l, is, (subst (IsPath m.next m.rear_ptr m.front_ptr) is inv.shape.path).0)
    | inl empty ↦ elim (Option-cases m.extra) [
      | inl alone ↦
          absurd (ground (arith, inv.sizes.0, inv.sizes.1, weight-le-sum reserved n phase i lt))
      | inr (x, is) ↦
          let (j, jlt, links) = inv.linker (λ z. absurd (cc)) in
          absurd (
            ground (
              arith,
              inv.sizes.0,
              inv.sizes.1,
              weight-le-sum reserved n phase i lt,
              weight-le-sum linking n phase j jlt,
              linker-linking m.rear_check (phase j) links,
            ))
    ]
  ]

  -- which is the one that the front leads to.
  pub has_node :
      (q : ℕ)
      → reserved (phase i) ≡ 1
      → m.next m.front_ptr ≡ node q
      → (l : List ℕ) × (m.nodes ≡ q ∷ l)
  has_node q one e = let (a, l, is, at) = some_node one in (l, is ∙ ap (λ t. t ∷ l) (cc))
