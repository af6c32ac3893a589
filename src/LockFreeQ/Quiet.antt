-- ===== src/LockFreeQ/Quiet.antt =====
-- GetQCount and the destructor of LockFreeQ (ServerCore/Memory/LockFreeQ.h), while no thread is in
-- EnQ or DeQ.
use mmoserver.Shared.{
  ℕ, zero, suc, ◌+◌, ◌<◌, ◌≡◌, Option, none, some, List, [], ◌∷◌, arith, refl, length,
  length-append, Option-cases, subst, inl, ap, ◌∙◌, inr,
}
use mmoserver.Families.{sum-eq-zero_below}
use mmoserver.LockFree.Destroy.{freed_first}
use mmoserver.LockFreeQ.Defs.{Link, null, tag, node, idle}
use mmoserver.LockFreeQ.System.{System, Reach}
use mmoserver.LockFreeQ.Shape.{IsPath, IsTail, IsSeen, contents}
use mmoserver.LockFreeQ.Local.{IsLinker, reserved, failing, linking}
use mmoserver.LockFreeQ.Fifo.{Reach-Inv}

-- The destructor's loop: the nodes that it gives back to the stack of free nodes, in order; `none` when
-- the fuel runs out or it reads through null.
unfoldable pub destroy : ℕ → (ℕ → Link) → Link → Option (List ℕ)
destroy zero next cur_node = none
destroy (suc fuel) next null = none
destroy (suc fuel) next (tag k) = some []
destroy (suc fuel) next (node del_node) = freed_first del_node (destroy fuel next (next del_node))

destroy-IsPath :
    (fuel : ℕ) (next : ℕ → Link) (r f : ℕ) (l : List ℕ)
    → IsPath next r f l
    → ((k : ℕ) × (next r ≡ tag k))
    → length l + 1 < fuel
    → destroy fuel next (node f) ≡ some (f ∷ l)
unfolding destroy
destroy-IsPath zero next r f l path last enough = absurd (omega arith)
destroy-IsPath (suc zero) next r f l path last enough = absurd (omega arith)
destroy-IsPath (suc (suc fuel)) next r f [] path (k, last) enough =
    ap (λ t. freed_first f (destroy (suc fuel) next t)) (ap next path ∙ last)
destroy-IsPath (suc (suc fuel)) next r f (a ∷ l) path last enough =
    ap (λ t. freed_first f (destroy (suc fuel) next t)) path.0
    ∙ ap (freed_first f) (destroy-IsPath (suc fuel) next r a l path.1 last (omega arith))

length-contents : {A : Type 0} (c : ℕ → A) (l : List ℕ) → length (contents c l none) ≡ length l
length-contents c [] = refl
length-contents c (a ∷ l) = omega (arith, length-contents c l)

seen_tag : (seen : List ℕ) (c : Link) → IsSeen seen c → (k : ℕ) × (c ≡ tag k)
seen_tag seen (tag k) h = (k, refl)
seen_tag seen null h = elim h [ ]
seen_tag seen (node q) h = elim h [ ]

module _ {A : Type 0} {blank : A} {max_count n : ℕ} {s : System A} (r : Reach blank max_count n s)
    (quiet : (i : ℕ) → i < n → s.phase i ≡ idle) where
  -- No node is left behind the rear.
  quiet-none : s.memory.extra ≡ none
  quiet-none = elim (Option-cases s.memory.extra) [
    | inl alone ↦ alone
    | inr (x, is) ↦
        let (j, jlt, links) = (Reach-Inv blank max_count n r).linker (λ z. absurd (cc)) in
        elim (subst (IsLinker s.memory.rear_check) (quiet j jlt) links) [ ]
  ]

  -- In every reachable state with no thread in EnQ or DeQ the count is the number of the items put in
  -- and not taken out.
  pub quiet_count :
      length s.memory.enqueued + s.memory.removed ≡ length s.memory.dequeued + s.memory.added
  quiet_count =
      let inv = Reach-Inv blank max_count n r in
      ground (
        arith,
        inv.sizes,
        quiet-none,
        ap length inv.shape.fifo,
        length-append s.memory.dequeued (contents s.memory.content s.memory.nodes none),
        length-contents s.memory.content s.memory.nodes,
        sum-eq-zero_below reserved n s.phase (λ i lt. ap reserved (quiet i lt)),
        sum-eq-zero_below failing n s.phase (λ i lt. ap failing (quiet i lt)),
        sum-eq-zero_below linking n s.phase (λ i lt. ap linking (quiet i lt)),
      )

  -- In every reachable state with no thread in EnQ or DeQ the destructor, with fuel above the number
  -- of nodes, gives back each node of the queue once, from the front on.
  pub destroy_lem :
      (fuel : ℕ)
      → length s.memory.nodes + 1 < fuel
      → destroy fuel s.memory.next (node s.memory.front_ptr)
        ≡ some (s.memory.front_ptr ∷ s.memory.nodes)
  destroy_lem fuel enough =
      let inv = Reach-Inv blank max_count n r in
      let (k, is) = seen_tag s.memory.seen s.memory.rear_check inv.shape.rear_seen in
      destroy-IsPath fuel s.memory.next s.memory.rear_ptr s.memory.front_ptr s.memory.nodes
        inv.shape.path
        (
          k,
          subst (IsTail s.memory.next s.memory.seen s.memory.rear_ptr s.memory.rear_check)
                quiet-none inv.shape.tail
              ∙ is,
        )
        enough
