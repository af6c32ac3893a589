-- ===== src/LockFreeQ/Defs.antt =====
-- The memory of a LockFreeQ (ServerCore/Memory/LockFreeQ.h), and where a thread stands in EnQ or DeQ.
-- Nodes are numbers. A word in `m_next` is null, a node, or a value from KERNEL_ADDRESS on; the value
-- KERNEL_ADDRESS + k is `tag k`.
use mmoserver.Shared.{ℕ, Option, List, [], ◌∷◌}

pub data Link : Type 0 where
  null : Link
  tag : ℕ → Link
  node : ℕ → Link

-- `m_frontCheck`, `m_rearCheck`, `m_rearID` without KERNEL_ADDRESS, and the fields of the nodes;
-- `m_count` is `added - removed`. The code does not read the other fields: `nodes` are the nodes
-- behind the front up to the rear, `extra` the one behind the rear, `seen` the tags that
-- `m_rearCheck` has had, `enqueued` what the successful first exchanges of EnQ have put in, and
-- `dequeued` what the successful exchanges of DeQ have taken out.
pub record Memory (A : Type 0) : Type 0 where
  pub front_ptr : ℕ
  pub front_id : ℕ
  pub rear_ptr : ℕ
  pub rear_check : Link
  pub rear_id : ℕ
  pub next : ℕ → Link
  pub content : ℕ → A
  pub added : ℕ
  pub removed : ℕ
  pub nodes : List ℕ
  pub extra : Option ℕ
  pub seen : List ℕ
  pub enqueued : List A
  pub dequeued : List A

-- The local variables are `data` d, `newNode` x with its tag k, `tempRear` p and c, `changeValue` q
-- and c' in EnQ, and `tempFront` p and i, `changeValue` q and `tempData` v in DeQ.
pub data Phase (A : Type 0) : Type 0 where
  idle : Phase A
  enq_fill : (d : A) → (x : ℕ) → Phase A  -- behind Alloc
  enq_tag : (d : A) → (x : ℕ) → Phase A  -- before InterlockedIncrement64
  enq_stamp : (d : A) → (x k : ℕ) → Phase A  -- before the write of `m_next`
  enq_ptr : (d : A) → (x k : ℕ) → Phase A  -- head of the loop
  enq_id : (d : A) → (x k p : ℕ) → Phase A
  enq_cas1 : (d : A) → (x k p : ℕ) → (c : Link) → Phase A
  enq_help : (d : A) → (x k p : ℕ) → (c : Link) → Phase A  -- behind a failed first exchange
  enq_help_id : (d : A) → (x k p : ℕ) → (c : Link) → (q : ℕ) → Phase A
  enq_help_cas : (d : A) → (x k p : ℕ) → (c : Link) → (q : ℕ) → (c' : Link) → Phase A
  enq_linked : (x p : ℕ) → (c : Link) → Phase A  -- behind a successful first exchange
  enq_cas2 : (x p : ℕ) → (c : Link) → (c' : Link) → Phase A
  enq_count : Phase A  -- before InterlockedIncrement
  enq_crashed : Phase A
  deq_fail : Phase A  -- behind a decrement below 0
  deq_ptr : Phase A
  deq_id : (p : ℕ) → Phase A
  deq_next : (p i : ℕ) → Phase A  -- head of the loop
  deq_data : (p i q : ℕ) → Phase A
  deq_cas : (p i q : ℕ) → (v : A) → Phase A
  deq_free : (p : ℕ) → (v : A) → Phase A  -- behind a successful exchange
  deq_crashed : Phase A

-- The tags that `m_rearCheck` has had, when it gets the value `c`.
abbrev pub note : Link → List ℕ → List ℕ
note (tag k) seen = k ∷ seen
note null seen = seen
note (node q) seen = seen

abbrev pub without_first : List ℕ → List ℕ
without_first [] = []
without_first (x ∷ xs) = xs
