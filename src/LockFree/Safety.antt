-- ===== src/LockFree/Safety.antt =====
-- The nodes and the threads' local variables between the steps of the shared lock-free loops
-- (ServerCore/Memory/FreeList.h and LockFreeStack.h).
use mmoserver.Shared.{
  ap, ℕ, ◌+◌, ◌≤◌, ◌<◌, ◌≡◌, ◌≢◌, refl, sym, ◌∙◌, subst, Option, none, some, List, [], ◌∷◌, arith,
  ◌==◌, if◌then◌else◌,
}
use mmoserver.Families.{
  assign-elim, assign, sum, sum-assign, weight-le-sum, weights-le-sum, occurrences,
}
use mmoserver.LockFree.Top.{
  Top, Phase, out, aside, push_ptr, push_id, push_link, push_swap, pushed, pop_ptr, pop_id,
  pop_next, pop_swap, popped, without_first, Move, link, push_win, read_next, pop_win,
}

-- The nodes of `l`, linked by `next` from `t` on.
abbrev pub IsLinked : (ℕ → Option ℕ) → Option ℕ → List ℕ → Type 0
IsLinked next t [] = t ≡ none
IsLinked next t (a ∷ l) = (t ≡ some a) × IsLinked next (next a) l

-- A thread that has node `a` to itself: before it puts it in, or after it took it out.
abbrev pub carries : ℕ → Phase → ℕ
carries a out = 0
carries a aside = 0
carries a (push_ptr x) = if x == a then 1 else 0
carries a (push_id x p) = if x == a then 1 else 0
carries a (push_link x p id) = if x == a then 1 else 0
carries a (push_swap x p id) = if x == a then 1 else 0
carries a (pushed x) = 0
carries a pop_ptr = 0
carries a (pop_id p) = 0
carries a (pop_next p id) = 0
carries a (pop_swap x id after) = 0
carries a (popped x) = if x == a then 1 else 0

-- In how many places node `a` is: among the linked nodes, or with one of the `n` threads.
abbrev pub places : ℕ → ℕ → Top → (ℕ → Phase) → ℕ
places a n m phase = occurrences a m.nodes + sum (carries a) n phase

-- What a thread's locals say while the pair that it read is still the one in memory.
abbrev pub IsCurrent : Top → Phase → Type 0
IsCurrent m out = Unit
IsCurrent m aside = Unit
IsCurrent m (push_ptr x) = Unit
IsCurrent m (push_id x p) = Unit
IsCurrent m (push_link x p id) = id ≤ m.check_id
IsCurrent m (push_swap x p id) = (id ≤ m.check_id) × (m.next x ≡ p)
IsCurrent m (pushed x) = Unit
IsCurrent m pop_ptr = Unit
IsCurrent m (pop_id p) = Unit
IsCurrent m (pop_next p id) = id ≤ m.check_id
IsCurrent m (pop_swap a id after) =
    (id ≤ m.check_id) × (id ≡ m.check_id → m.top_ptr ≡ some a → m.next a ≡ after)
IsCurrent m (popped x) = Unit

pub record Inv (n : ℕ) (m : Top) (phase : ℕ → Phase) : Type 0 where
  pub linked : IsLinked m.next m.top_ptr m.nodes
  pub single : (a : ℕ) → places a n m phase ≤ 1
  pub current : (i : ℕ) → i < n → IsCurrent m (phase i)

-- A write to a node outside the list leaves the list linked.
IsLinked-assign :
    (next : ℕ → Option ℕ) (t : Option ℕ) (l : List ℕ) (x : ℕ) (p : Option ℕ)
    → occurrences x l ≡ 0
    → IsLinked next t l
    → IsLinked (assign next x p) t l
IsLinked-assign next t [] x p h k = k
IsLinked-assign next t (a ∷ l) x p h k = (
  k.0,
  subst (λ q. IsLinked (assign next x p) q l) (ground arith)
      (IsLinked-assign next (next a) l x p (ground arith) k.1),
)

-- The first linked node is the one at the top.
pub top-IsLinked :
    (m : Top) (a : ℕ)
    → IsLinked m.next m.top_ptr m.nodes
    → m.top_ptr ≡ some a
    → (m.nodes ≡ a ∷ without_first m.nodes) × IsLinked m.next (m.next a) (without_first m.nodes)
top-IsLinked m a k e = go m.nodes k
  where
    go :
        (l : List ℕ)
        → IsLinked m.next m.top_ptr l
        → (l ≡ a ∷ without_first l) × IsLinked m.next (m.next a) (without_first l)
    go [] h = absurd (cc)
    go (b ∷ l) h =
        let same : b ≡ a = cc (sym h.0 ∙ e) in
        (ap (λ z. z ∷ l) same, subst (λ z. IsLinked m.next (m.next z) l) same h.1)

module _ {n : ℕ} {m : Top} {phase : ℕ → Phase} (inv : Inv n m phase) where
  top-occurs : (a : ℕ) → m.top_ptr ≡ some a → 0 < occurrences a m.nodes
  top-occurs a e = ground (arith, ap (occurrences a) (top-IsLinked m a inv.linked e).0)

  -- A write to a node outside the list is not seen by the threads that do not carry it.
  linked_aside :
      (x : ℕ) (p : Option ℕ) (q : Phase)
      → occurrences x m.nodes ≡ 0
      → carries x q ≡ 0
      → IsCurrent m q
      → IsCurrent (record m { next = assign m.next x p }) q
  linked_aside x p (push_swap y r id) h k c = (c.0, ground arith)
  linked_aside x p (pop_swap a id after) h k c =
      (c.0, λ same top. ground (arith, c.1 same top, top-occurs a top, h))
  linked_aside x p out h k c = tt
  linked_aside x p aside h k c = tt
  linked_aside x p (push_ptr y) h k c = tt
  linked_aside x p (push_id y r) h k c = tt
  linked_aside x p (push_link y r id) h k c = c
  linked_aside x p (pushed y) h k c = tt
  linked_aside x p pop_ptr h k c = tt
  linked_aside x p (pop_id r) h k c = tt
  linked_aside x p (pop_next r id) h k c = c
  linked_aside x p (popped y) h k c = tt

  -- A write to a node that is nowhere.
  pub write-Inv :
      (x : ℕ) (p : Option ℕ)
      → places x n m phase ≡ 0
      → Inv n (record m { next = assign m.next x p }) phase
  write-Inv x p h = record {
    linked = IsLinked-assign m.next m.top_ptr m.nodes x p (omega (arith, h)) inv.linked;
    single = inv.single;
    current = λ j jlt.
        linked_aside x p (phase j) (omega (arith, h))
          (omega (arith, h, weight-le-sum (carries x) n phase j jlt)) (inv.current j jlt);
  }

  -- A thread that goes elsewhere.
  pub assign-Inv :
      (i : ℕ) (p : Phase)
      → IsCurrent m p
      → ((a : ℕ) → places a n m (assign phase i p) ≤ 1)
      → Inv n m (assign phase i p)
  assign-Inv i p c once = record {
    linked = inv.linked;
    single = once;
    current = λ j jlt. assign-elim (IsCurrent m) phase i j p (λ same. c) (λ ne. inv.current j jlt);
  }

module _ {n : ℕ} {m : Top} {phase : ℕ → Phase} (inv : Inv n m phase) (i : ℕ) (lt : i < n) where
  -- A node that thread `i` carries is not linked.
  carried : (x : ℕ) → carries x (phase i) ≡ 1 → occurrences x m.nodes ≡ 0
  carried x h = ground (arith, inv.single x, weight-le-sum (carries x) n phase i lt)

  -- Nor does another thread carry it.
  carried_once : (j x : ℕ) → j < n → i ≢ j → carries x (phase i) ≡ 1 → carries x (phase j) ≡ 0
  carried_once j x jlt ne h = ground (
    arith,
    inv.single x,
    weights-le-sum (carries x) n phase i j,
    weights-le-sum (carries x) n phase j i,
  )

  -- No step of the loops makes or loses a node.
  pub Move-places :
      {p p' : Phase} {m' : Top}
      → Move m p m' p'
      → phase i ≡ p
      → (a : ℕ) → places a n m' (assign phase i p') ≡ places a n m phase
  Move-places (pop_win {a = b} {after} t c) e a = ground (
    arith,
    sum-assign (carries a) n phase i (popped b) lt,
    ap (occurrences a) (top-IsLinked m b inv.linked t).0,
  )
  Move-places {p' = p'} mv e a = ground (arith, sum-assign (carries a) n phase i p' lt)

  Move-IsLinked :
      {p p' : Phase} {m' : Top}
      → Move m p m' p'
      → phase i ≡ p
      → IsCurrent m p
      → IsLinked m'.next m'.top_ptr m'.nodes
  Move-IsLinked (link {x} {p}) e c =
      IsLinked-assign m.next m.top_ptr m.nodes x p (carried x (ground arith)) inv.linked
  Move-IsLinked (push_win {x} t d) e c =
      (refl, subst (λ q. IsLinked m.next q m.nodes) (t ∙ sym c.1) inv.linked)
  Move-IsLinked (pop_win {a} t d) e c =
      subst (λ q. IsLinked m.next q (without_first m.nodes)) (c.1 (sym d) t)
        (top-IsLinked m a inv.linked t).1
  Move-IsLinked mv e c = inv.linked

  -- A successful exchange makes the pairs read before it old.
  won :
      (m' : Top) (q : Phase)
      → m'.next ≡ m.next
      → m'.check_id ≡ m.check_id + 1
      → IsCurrent m q
      → IsCurrent m' q
  won m' out f d c = tt
  won m' aside f d c = tt
  won m' (push_ptr x) f d c = tt
  won m' (push_id x p) f d c = tt
  won m' (push_link x p id) f d c = omega arith
  won m' (push_swap x p id) f d c = (omega arith, ap (λ g. g x) f ∙ c.1)
  won m' (pushed x) f d c = tt
  won m' pop_ptr f d c = tt
  won m' (pop_id p) f d c = tt
  won m' (pop_next p id) f d c = omega arith
  won m' (pop_swap a id after) f d c = (omega arith, λ same top. absurd (omega arith))
  won m' (popped x) f d c = tt

  -- The other threads stay current,
  Move-others :
      {p p' : Phase} {m' : Top}
      → Move m p m' p'
      → phase i ≡ p
      → (j : ℕ) → j < n
      → i ≢ j
      → IsCurrent m' (phase j)
  Move-others (link {x} {p}) e j jlt ne =
      linked_aside inv x p (phase j) (carried x (ground arith))
        (carried_once j x jlt ne (ground arith)) (inv.current j jlt)
  Move-others {m' = m'} (push_win t d) e j jlt ne =
      won m' (phase j) refl (ap (λ k. k + 1) (sym d)) (inv.current j jlt)
  Move-others {m' = m'} (pop_win t d) e j jlt ne =
      won m' (phase j) refl (ap (λ k. k + 1) (sym d)) (inv.current j jlt)
  Move-others mv e j jlt ne = inv.current j jlt

  -- and so does the thread that moves.
  Move-self : {p p' : Phase} {m' : Top} → Move m p m' p' → IsCurrent m p → IsCurrent m' p'
  Move-self (link {x} {p} {id}) c = (c, ground arith)
  Move-self (read_next e) c = (c, λ same top. refl)
  Move-self mv c = ground arith

  pub Move-Inv :
      {p p' : Phase} {m' : Top} → Move m p m' p' → phase i ≡ p → Inv n m' (assign phase i p')
  Move-Inv {p} {p'} {m'} mv e = record {
    linked = Move-IsLinked mv e own;
    single = λ a. rw (Move-places mv e a) (inv.single a);
    current = λ j jlt.
        assign-elim (IsCurrent m') phase i j p' (λ same. Move-self mv own) (Move-others mv e j jlt);
  }
    where
      own : IsCurrent m p
      own = subst (IsCurrent m) e (inv.current i lt)
