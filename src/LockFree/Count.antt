-- ===== src/LockFree/Count.antt =====
-- The count of a LockFreeStack and the top that `Pop` reads through
-- (ServerCore/Memory/LockFreeStack.h).
use mmoserver.Shared.{refl, ℕ, ◌+◌, ◌≤◌, ◌<◌, ◌≡◌, ◌≢◌, none, List, [], ◌∷◌, length, arith, ap}
use mmoserver.Families.{assign, assign-elim, sum, sum-assign, weight-le-sum}
use mmoserver.LockFree.Top.{
  Top, Phase, out, aside, push_ptr, push_id, push_link, push_swap, pushed, pop_ptr, pop_id,
  pop_next, pop_swap, popped, Move, read_pop_ptr, read_pop_id, pop_win, pop_lose,
}
use mmoserver.LockFree.Safety.{IsLinked, carries, Inv, assign-Inv, top-IsLinked, IsCurrent}
use mmoserver.LockFree.Stack.{LockFreeStack}

-- A thread that has put a node in and not counted it, or counted one down and not taken it out.
abbrev pub reserved : Phase → ℕ
reserved out = 0
reserved aside = 0
reserved (push_ptr x) = 0
reserved (push_id x p) = 0
reserved (push_link x p id) = 0
reserved (push_swap x p id) = 0
reserved (pushed x) = 1
reserved pop_ptr = 1
reserved (pop_id p) = 1
reserved (pop_next p id) = 1
reserved (pop_swap a id after) = 1
reserved (popped a) = 0

-- A thread that found the count too low and has not restored it.
abbrev pub failing : Phase → ℕ
failing aside = 1
failing out = 0
failing (push_ptr x) = 0
failing (push_id x p) = 0
failing (push_link x p id) = 0
failing (push_swap x p id) = 0
failing (pushed x) = 0
failing pop_ptr = 0
failing (pop_id p) = 0
failing (pop_next p id) = 0
failing (pop_swap a id after) = 0
failing (popped a) = 0

-- The local copy of the top that `Pop` reads through is not null.
abbrev pub HasTop : Phase → Type 0
HasTop (pop_id p) = p ≢ none
HasTop (pop_next p id) = p ≢ none
HasTop out = Unit
HasTop aside = Unit
HasTop (push_ptr x) = Unit
HasTop (push_id x p) = Unit
HasTop (push_link x p id) = Unit
HasTop (push_swap x p id) = Unit
HasTop (pushed x) = Unit
HasTop pop_ptr = Unit
HasTop (pop_swap a id after) = Unit
HasTop (popped a) = Unit

pub record IsBalanced (n : ℕ) (s : LockFreeStack) : Type 0 where
  pub safe : Inv n s.top_check s.phase
  pub balanced :
      length s.top_check.nodes + s.removed
      ≡ s.added + (sum reserved n s.phase + sum failing n s.phase)
  pub bounded : s.removed ≤ s.added + sum failing n s.phase
  pub top_read : (i : ℕ) → i < n → HasTop (s.phase i)

null-top : (m : Top) → IsLinked m.next m.top_ptr m.nodes → m.top_ptr ≡ none → length m.nodes ≡ 0
null-top m k e = go m.nodes k
  where
    go : (l : List ℕ) → IsLinked m.next m.top_ptr l → length l ≡ 0
    go [] h = refl
    go (a ∷ l) h = absurd (cc)

module _ {n : ℕ} {s : LockFreeStack} (c : IsBalanced n s) (i : ℕ) (lt : i < n) where
  -- A thread that has counted down finds a node.
  has_node : reserved (s.phase i) ≡ 1 → s.top_check.top_ptr ≢ none
  has_node o e = omega (
    arith,
    c.balanced,
    c.bounded,
    weight-le-sum reserved n s.phase i lt,
    null-top s.top_check c.safe.linked e,
    o,
  )

  pub Move-HasTop :
      {p p' : Phase} {m : Top} → Move s.top_check p m p' → s.phase i ≡ p → HasTop p → HasTop p'
  Move-HasTop read_pop_ptr e h = has_node (ground arith)
  Move-HasTop read_pop_id e h = h
  Move-HasTop (pop_lose d) e h = has_node (ground arith)
  Move-HasTop mv e h = ground arith

  pub Move-balanced :
      {p p' : Phase} {m : Top}
      → Move s.top_check p m p'
      → s.phase i ≡ p
      → (length m.nodes + s.removed
          ≡ s.added + (sum reserved n (assign s.phase i p') + sum failing n (assign s.phase i p')))
        × (sum failing n (assign s.phase i p') ≡ sum failing n s.phase)
  Move-balanced (pop_win {a = b} t d) e = ground (
    arith,
    c.balanced,
    sum-assign reserved n s.phase i (popped b) lt,
    sum-assign failing n s.phase i (popped b) lt,
    ap length (top-IsLinked s.top_check b c.safe.linked t).0,
  )
  Move-balanced {p' = p'} mv e = ground (
    arith,
    c.balanced,
    sum-assign reserved n s.phase i p' lt,
    sum-assign failing n s.phase i p' lt,
  )

  pub step_top : (p : Phase) → HasTop p → (j : ℕ) → j < n → HasTop (assign s.phase i p j)
  step_top p h j jlt = assign-elim HasTop s.phase i j p (λ same. h) (λ ne. c.top_read j jlt)

  -- A thread that goes elsewhere without a node more than before.
  pub go-Inv :
      (p : Phase)
      → ((a : ℕ) → carries a p ≡ 0)
      → IsCurrent s.top_check p
      → Inv n s.top_check (assign s.phase i p)
  go-Inv p none_more now =
      assign-Inv c.safe i p now
        (λ a. omega (arith, c.safe.single a, none_more a, sum-assign (carries a) n s.phase i p lt))
