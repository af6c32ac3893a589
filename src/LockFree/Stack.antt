-- ===== src/LockFree/Stack.antt =====
-- LockFreeStack of ServerCore/Memory/LockFreeStack.h: `Push` and `Pop` as the steps of `n` threads,
-- with the loops of Top. `m_count` is `added - removed`, the numbers of its increments and
-- decrements. Nodes come from the stack's FreeList, which gives a node that is in no other hands; the
-- data in the nodes stands in Data, and the check id counts from 0, not from -1.
use mmoserver.Shared.{ℕ, ◌+◌, ◌≤◌, ◌<◌, ◌≡◌, none, []}
use mmoserver.Families.{assign}
use mmoserver.LockFree.Top.{Top, Phase, out, aside, pop_ptr, popped, push_ptr, pushed, Move}
use mmoserver.LockFree.Safety.{places}

pub record LockFreeStack : Type 0 where
  pub top_check : Top
  pub phase : ℕ → Phase
  pub added : ℕ
  pub removed : ℕ

abbrev pub go_on : LockFreeStack → ℕ → Phase → LockFreeStack
go_on s i p = record s { phase = assign s.phase i p }

abbrev pub new_node : LockFreeStack → ℕ → LockFreeStack
new_node s x = record s {
  top_check = record (s.top_check) { next = assign s.top_check.next x none };
}

pub data StackStep (n : ℕ) (s : LockFreeStack) : LockFreeStack → Type 0 where
  -- A step of the loop of `Push` or of `Pop`.
  loop :
      {p p' : Phase} {m : Top} (i : ℕ)
      → i < n
      → s.phase i ≡ p
      → Move s.top_check p m p'
      → StackStep n s (go_on (record s { top_check = m }) i p')
  -- Push
  push :
      (i x : ℕ)
      → i < n
      → s.phase i ≡ out
      → places x n s.top_check s.phase ≡ 0
      → StackStep n s (go_on (new_node s x) i (push_ptr x))
  push_count :
      (i x : ℕ)
      → i < n
      → s.phase i ≡ pushed x
      → StackStep n s (go_on (record s { added = s.added + 1 }) i out)
  -- Pop
  pop_reserve :
      (i : ℕ)
      → i < n
      → s.phase i ≡ out
      → s.removed + 1 ≤ s.added
      → StackStep n s (go_on (record s { removed = s.removed + 1 }) i pop_ptr)
  pop_fail :
      (i : ℕ)
      → i < n
      → s.phase i ≡ out
      → s.added < s.removed + 1
      → StackStep n s (go_on (record s { removed = s.removed + 1 }) i aside)
  pop_restore :
      (i : ℕ)
      → i < n
      → s.phase i ≡ aside
      → StackStep n s (go_on (record s { added = s.added + 1 }) i out)
  pop_return : (i a : ℕ) → i < n → s.phase i ≡ popped a → StackStep n s (go_on s i out)

abbrev pub empty_stack : LockFreeStack
empty_stack = record {
  top_check = record { top_ptr = none; check_id = 0; next = λ a. none; nodes = [] };
  phase = λ i. out;
  added = 0;
  removed = 0;
}

pub data StackReach (n : ℕ) : LockFreeStack → Type 0 where
  start : StackReach n empty_stack
  later : {s t : LockFreeStack} → StackReach n s → StackStep n s t → StackReach n t
