-- ===== src/LockFree/Balance.antt =====
-- The count of a LockFreeStack over its steps (ServerCore/Memory/LockFreeStack.h).
use mmoserver.Shared.{refl, ℕ, none, arith, subst}
use mmoserver.Families.{sum-assign, weight-le-sum, sum-eq-zero}
use mmoserver.LockFree.Top.{out, aside, push_ptr, pop_ptr}
use mmoserver.LockFree.Safety.{carries, assign-Inv, Move-Inv, write-Inv}
use mmoserver.LockFree.Stack.{
  LockFreeStack, StackStep, loop, push, push_count, pop_reserve, pop_fail, pop_restore, pop_return,
  StackReach, start, later,
}
use mmoserver.LockFree.Count.{
  reserved, failing, HasTop, IsBalanced, Move-HasTop, Move-balanced, step_top, go-Inv,
}

Step-IsBalanced : {n : ℕ} {s t : LockFreeStack} → StackStep n s t → IsBalanced n s → IsBalanced n t
Step-IsBalanced {n} {s} (loop {p' = p'} i lt e mv) c = record {
  safe = Move-Inv c.safe i lt mv e;
  balanced = (Move-balanced c i lt mv e).0;
  bounded = omega (arith, c.bounded, (Move-balanced c i lt mv e).1);
  top_read = step_top c i lt p' (Move-HasTop c i lt mv e (subst HasTop e (c.top_read i lt)));
}
Step-IsBalanced {n} {s} (push i x lt e unused) c = record {
  safe = assign-Inv (write-Inv c.safe x none unused) i (push_ptr x) tt (λ a.
      ground (arith, c.safe.single a, unused, sum-assign (carries a) n s.phase i (push_ptr x) lt));
  balanced = ground (
    arith,
    c.balanced,
    sum-assign reserved n s.phase i (push_ptr x) lt,
    sum-assign failing n s.phase i (push_ptr x) lt,
  );
  bounded = ground (arith, c.bounded, sum-assign failing n s.phase i (push_ptr x) lt);
  top_read = step_top c i lt (push_ptr x) tt;
}
Step-IsBalanced {n} {s} (push_count i x lt e) c = record {
  safe = go-Inv c i lt out (λ a. refl) tt;
  balanced = ground (
    arith,
    c.balanced,
    sum-assign reserved n s.phase i out lt,
    sum-assign failing n s.phase i out lt,
  );
  bounded = ground (arith, c.bounded, sum-assign failing n s.phase i out lt);
  top_read = step_top c i lt out tt;
}
Step-IsBalanced {n} {s} (pop_reserve i lt e enough) c = record {
  safe = go-Inv c i lt pop_ptr (λ a. refl) tt;
  balanced = ground (
    arith,
    c.balanced,
    sum-assign reserved n s.phase i pop_ptr lt,
    sum-assign failing n s.phase i pop_ptr lt,
  );
  bounded = ground (arith, sum-assign failing n s.phase i pop_ptr lt);
  top_read = step_top c i lt pop_ptr tt;
}
Step-IsBalanced {n} {s} (pop_fail i lt e low) c = record {
  safe = go-Inv c i lt aside (λ a. refl) tt;
  balanced = ground (
    arith,
    c.balanced,
    sum-assign reserved n s.phase i aside lt,
    sum-assign failing n s.phase i aside lt,
  );
  bounded = ground (arith, c.bounded, sum-assign failing n s.phase i aside lt);
  top_read = step_top c i lt aside tt;
}
Step-IsBalanced {n} {s} (pop_restore i lt e) c = record {
  safe = go-Inv c i lt out (λ a. refl) tt;
  balanced = ground (
    arith,
    c.balanced,
    sum-assign reserved n s.phase i out lt,
    sum-assign failing n s.phase i out lt,
    weight-le-sum failing n s.phase i lt,
  );
  bounded = ground (
    arith,
    c.bounded,
    sum-assign failing n s.phase i out lt,
    weight-le-sum failing n s.phase i lt,
  );
  top_read = step_top c i lt out tt;
}
Step-IsBalanced {n} {s} (pop_return i a lt e) c = record {
  safe = go-Inv c i lt out (λ a. refl) tt;
  balanced = ground (
    arith,
    c.balanced,
    sum-assign reserved n s.phase i out lt,
    sum-assign failing n s.phase i out lt,
  );
  bounded = ground (arith, c.bounded, sum-assign failing n s.phase i out lt);
  top_read = step_top c i lt out tt;
}

-- In every reachable state of threads in `Push` and `Pop` the nodes are linked from the top on and each
-- is in one place; their number is the count of the stack, plus one for each thread that has put a
-- node in and not counted it, counted one down and not taken it out, or found the count too low and
-- not restored it; and the copy of the top that a thread in `Pop` reads through is not null.
pub Reach-IsBalanced : {n : ℕ} {s : LockFreeStack} → StackReach n s → IsBalanced n s
Reach-IsBalanced {n} start = record {
  safe = record {
    linked = refl;
    single = λ a. omega (arith, sum-eq-zero (carries a) n (λ i. out) (λ i. refl));
    current = λ i lt. tt;
  };
  balanced = omega (
    arith,
    sum-eq-zero reserved n (λ i. out) (λ i. refl),
    sum-eq-zero failing n (λ i. out) (λ i. refl),
  );
  bounded = omega arith;
  top_read = λ i lt. tt;
}
Reach-IsBalanced (later r st) = Step-IsBalanced st (Reach-IsBalanced r)
