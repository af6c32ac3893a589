-- ===== src/LockFree/Data.antt =====
-- The data in the nodes of a LockFreeStack (ServerCore/Memory/LockFreeStack.h).
use mmoserver.Shared.{
  ◌+◌, dec_lt, ap₂, ℕ, ◌<◌, ◌≤◌, ◌≡◌, ◌≢◌, List, [], ◌∷◌, map, arith, refl, sym, ap, ◌∙◌, subst,
  fun_ext,
}
use mmoserver.Families.{assign, assign-elim, occurrences, weight-le-sum}
use mmoserver.Calls.{
  Call, outside, putting, put, taking, took, refused, Act, begin_put, put_in, end_put, begin_take,
  take_front, end_take, refuse, end_refuse, wait, cons, Atomic, AtomicStep, act,
}
use mmoserver.LockFree.Top.{
  Top, Phase, out, aside, push_ptr, push_id, push_link, push_swap, pushed, pop_ptr, pop_id,
  pop_next, pop_swap, popped, Move, push_win, pop_win,
}
use mmoserver.LockFree.Safety.{carries, top-IsLinked, places}
use mmoserver.LockFree.Stack.{
  LockFreeStack, StackStep, loop, push, push_count, pop_reserve, pop_fail, pop_restore, pop_return,
  StackReach, empty_stack, go_on, new_node,
}
use mmoserver.LockFree.Stack as Stack
use mmoserver.LockFree.Balance.{Reach-IsBalanced}

-- `m_data` is that of every node.
pub record DataStack (A : Type 0) : Type 0 where
  pub stack : LockFreeStack
  pub m_data : ℕ → A

-- Threads from `n` on are in no call.
stays_out : {n : ℕ} {s : LockFreeStack} → StackReach n s → (j : ℕ) → n ≤ j → s.phase j ≡ out
stays_out Stack.start j le = refl
stays_out (Stack.later r (loop i lt e mv)) j le = ground (arith, stays_out r j le)
stays_out (Stack.later r (push i x lt e unused)) j le = ground (arith, stays_out r j le)
stays_out (Stack.later r (push_count i x lt e)) j le = ground (arith, stays_out r j le)
stays_out (Stack.later r (pop_reserve i lt e enough)) j le = ground (arith, stays_out r j le)
stays_out (Stack.later r (pop_fail i lt e low)) j le = ground (arith, stays_out r j le)
stays_out (Stack.later r (pop_restore i lt e)) j le = ground (arith, stays_out r j le)
stays_out (Stack.later r (pop_return i a lt e)) j le = ground (arith, stays_out r j le)

module _ {A : Type 0} where
  -- Push writes its argument `d` to the node that it got; no other step writes to `m_data`.
  abbrev pub written : {n : ℕ} {s t : LockFreeStack} → StackStep n s t → A → (ℕ → A) → ℕ → A
  written (push i x lt e unused) d content = assign content x d
  written (loop i lt e mv) d content = content
  written (push_count i x lt e) d content = content
  written (pop_reserve i lt e enough) d content = content
  written (pop_fail i lt e low) d content = content
  written (pop_restore i lt e) d content = content
  written (pop_return i a lt e) d content = content

  pub data DataStep (n : ℕ) (s : DataStack A) : DataStack A → Type 0 where
    step :
        {t : LockFreeStack} (d : A) (st : StackStep n s.stack t)
        → DataStep n s (record { stack = t; m_data = written st d s.m_data })

  pub data DataReach (n : ℕ) : DataStack A → Type 0 where
    start : (content : ℕ → A) → DataReach n (record { stack = empty_stack; m_data = content })
    later : {s t : DataStack A} → DataReach n s → DataStep n s t → DataReach n t

  -- The call that a thread in Push or Pop is in. Pop returns what is in the node that it took out.
  abbrev pub call : (ℕ → A) → Phase → Call A
  call content out = outside
  call content aside = refused
  call content (push_ptr x) = putting (content x)
  call content (push_id x p) = putting (content x)
  call content (push_link x p id) = putting (content x)
  call content (push_swap x p id) = putting (content x)
  call content (pushed x) = put
  call content pop_ptr = taking
  call content (pop_id p) = taking
  call content (pop_next p id) = taking
  call content (pop_swap a id after) = taking
  call content (popped a) = took (content a)

  -- The data in the nodes from the top on.
  abbrev pub view : DataStack A → Atomic A
  view s = record {
    held = map s.m_data s.stack.top_check.nodes;
    calls = λ i. call s.m_data (s.stack.phase i);
  }

  DataReach-StackReach : {n : ℕ} {s : DataStack A} → DataReach n s → StackReach n s.stack
  DataReach-StackReach (start content) = Stack.start
  DataReach-StackReach (later r (step d st)) = Stack.later (DataReach-StackReach r) st

  -- A write to a node that is nowhere.
  map-assign :
      (content : ℕ → A) (x : ℕ) (d : A) (l : List ℕ)
      → occurrences x l ≡ 0
      → map (assign content x d) l ≡ map content l
  map-assign content x d [] h = refl
  map-assign content x d (a ∷ l) h =
      ap₂ ◌∷◌ (ground arith) (map-assign content x d l (ground arith))

  call-assign :
      (content : ℕ → A) (x : ℕ) (d : A) (p : Phase)
      → carries x p ≡ 0
      → call (assign content x d) p ≡ call content p
  call-assign content x d (push_ptr y) h = ap putting (ground arith)
  call-assign content x d (push_id y p) h = ap putting (ground arith)
  call-assign content x d (push_link y p id) h = ap putting (ground arith)
  call-assign content x d (push_swap y p id) h = ap putting (ground arith)
  call-assign content x d (popped y) h = ap took (ground arith)
  call-assign content x d p h = refl

  module _ {n : ℕ} {s : DataStack A} (r : DataReach n s) where
    -- A step of thread `i`, by what it does to its call.
    by_act :
        (i : ℕ) (p : Phase) (m : Top) (content : ℕ → A) (added removed : ℕ)
        → i < n
        → ((j : ℕ) → i ≢ j → call content (s.stack.phase j) ≡ call s.m_data (s.stack.phase j))
        → Act cons
            (map s.m_data s.stack.top_check.nodes)
            (call s.m_data (s.stack.phase i))
            (map content m.nodes)
            (call content p)
        → AtomicStep cons n (view s) (
            view (record {
              stack = record {
                top_check = m;
                phase = assign s.stack.phase i p;
                added = added;
                removed = removed;
              };
              m_data = content;
            }))
    by_act i p m content added removed lt others does =
        subst
          (λ calls.
            AtomicStep cons n (view s) (record { held = map content m.nodes; calls = calls }))
          (fun_ext (λ j.
            assign-elim
              (λ q.
                assign (λ k. call s.m_data (s.stack.phase k)) i (call content p) j ≡ call content q)
              s.stack.phase i j p (λ z. ground arith) (λ z. ground arith ∙ sym (others j z))))
          (act i lt does)

    -- A step that writes to the count alone.
    by_call :
        (i : ℕ) {p : Phase} (p' : Phase) (added removed : ℕ)
        → i < n
        → s.stack.phase i ≡ p
        → Act cons
            (map s.m_data s.stack.top_check.nodes)
            (call s.m_data p)
            (map s.m_data s.stack.top_check.nodes)
            (call s.m_data p')
        → AtomicStep cons n (view s) (
            view (record s {
              stack = record (s.stack) {
                phase = assign s.stack.phase i p';
                added = added;
                removed = removed;
              };
            }))
    by_call i p' added removed lt e does =
        by_act i p' s.stack.top_check s.m_data added removed lt (λ j ne. refl)
          (subst
            (λ q.
              Act cons (map s.m_data s.stack.top_check.nodes) (call s.m_data q)
                (map s.m_data s.stack.top_check.nodes) (call s.m_data p'))
            (sym e) does)

    unused-carries :
        (x : ℕ)
        → places x n s.stack.top_check s.stack.phase ≡ 0
        → (j : ℕ) → carries x (s.stack.phase j) ≡ 0
    unused-carries x unused j = elim (dec_lt j n) [
      | yes lt ↦ omega (arith, unused, weight-le-sum (carries x) n s.stack.phase j lt)
      | no ge ↦ ap (carries x) (stays_out (DataReach-StackReach r) j (omega arith))
    ]

    Move-Act :
        (i : ℕ) {p p' : Phase} {m : Top}
        → i < n
        → Move s.stack.top_check p m p'
        → Act cons
            (map s.m_data s.stack.top_check.nodes)
            (call s.m_data p)
            (map s.m_data m.nodes)
            (call s.m_data p')
    Move-Act i lt (push_win t d) = put_in
    Move-Act i lt (pop_win {a} {after = after} t d) = take_front (
        ap (map s.m_data)
          (top-IsLinked s.stack.top_check a (Reach-IsBalanced (DataReach-StackReach r)).safe.linked
            t).0)
    Move-Act i lt mv = wait

  -- In every reachable state of a LockFreeStack with data a step of a thread is a step of the atomic
  -- stack, for the same thread and the data in the nodes from the top on: Push puts its argument on
  -- top in one step between its first and its last one, Pop in one step takes the data at the top,
  -- which it returns, and all other steps leave the data alone.
  pub DataStep-AtomicStep :
      {n : ℕ} {s t : DataStack A}
      → DataReach n s
      → DataStep n s t
      → AtomicStep cons n (view s) (view t)
  DataStep-AtomicStep {n} {s} r (step d (loop {p} {p'} {m} i lt e mv)) =
      by_act r i p' m s.m_data s.stack.added s.stack.removed lt (λ j ne. refl)
        (subst
          (λ q.
            Act cons (map s.m_data s.stack.top_check.nodes) (call s.m_data q) (map s.m_data m.nodes)
              (call s.m_data p'))
          (sym e) (Move-Act r i lt mv))
  DataStep-AtomicStep {n} {s} r (step d (push i x lt e unused)) =
      by_act r i (push_ptr x) ((new_node s.stack x).top_check) (assign s.m_data x d) s.stack.added
        s.stack.removed lt
        (λ j ne. call-assign s.m_data x d (s.stack.phase j) (unused-carries r x unused j))
        (subst
          (λ c.
            Act cons (map s.m_data s.stack.top_check.nodes) c
              (map (assign s.m_data x d) s.stack.top_check.nodes) (putting (assign s.m_data x d x)))
          (sym (ap (call s.m_data) e))
          (subst
            (λ l.
              Act cons (map s.m_data s.stack.top_check.nodes) outside l
                (putting (assign s.m_data x d x)))
            (sym (map-assign s.m_data x d s.stack.top_check.nodes (omega (arith, unused))))
            begin_put))
  DataStep-AtomicStep {n} {s} r (step d (push_count i x lt e)) =
      by_call r i out (s.stack.added + 1) s.stack.removed lt e end_put
  DataStep-AtomicStep {n} {s} r (step d (pop_reserve i lt e enough)) =
      by_call r i pop_ptr s.stack.added (s.stack.removed + 1) lt e begin_take
  DataStep-AtomicStep {n} {s} r (step d (pop_fail i lt e low)) =
      by_call r i aside s.stack.added (s.stack.removed + 1) lt e refuse
  DataStep-AtomicStep {n} {s} r (step d (pop_restore i lt e)) =
      by_call r i out (s.stack.added + 1) s.stack.removed lt e end_refuse
  DataStep-AtomicStep {n} {s} r (step d (pop_return i a lt e)) =
      by_call r i out s.stack.added s.stack.removed lt e end_take
