-- ===== src/LockFree/Top.antt =====
-- The loops that FreeList::Free and LockFreeStack::Push, and FreeList::Alloc and LockFreeStack::Pop,
-- have in common (ServerCore/Memory/FreeList.h and LockFreeStack.h): a linked stack of nodes whose
-- top stands with a check id in one pair that InterlockedCompareExchange128 compares and replaces.
-- Each step is one access to shared memory. Nodes are numbers; the 64-bit check id is a natural
-- number, so it does not come back to an old value. The waits between two attempts read and write
-- nothing.
use mmoserver.Shared.{ℕ, ◌+◌, ◌≡◌, ◌≢◌, ◌⊎◌, Option, some, List, [], ◌∷◌}
use mmoserver.Families.{assign}

-- `m_TopCheck`, and `m_next` of every node. `nodes` records the nodes that the completed exchanges
-- have put in and not taken out, newest first; the code does not read it.
pub record Top : Type 0 where
  pub top_ptr : Option ℕ
  pub check_id : ℕ
  pub next : ℕ → Option ℕ
  pub nodes : List ℕ

-- Where a thread stands, with the local variables that are live there.
pub data Phase : Type 0 where
  out : Phase  -- in neither loop
  aside : Phase  -- outside the loops, with work to do there
  push_ptr : (x : ℕ) → Phase  -- before the read of `m_topPtr`
  push_id : (x : ℕ) → (p : Option ℕ) → Phase  -- before the read of `m_checkID`
  push_link : (x : ℕ) → (p : Option ℕ) → (id : ℕ) → Phase  -- head of the loop
  push_swap : (x : ℕ) → (p : Option ℕ) → (id : ℕ) → Phase  -- before the exchange
  pushed : (x : ℕ) → Phase  -- behind a successful exchange
  pop_ptr : Phase
  pop_id : (p : Option ℕ) → Phase
  pop_next : (p : Option ℕ) → (id : ℕ) → Phase  -- head of the loop
  pop_swap : (a : ℕ) → (id : ℕ) → (after : Option ℕ) → Phase  -- before the exchange
  popped : (a : ℕ) → Phase  -- behind a successful exchange

abbrev pub without_first : List ℕ → List ℕ
without_first [] = []
without_first (x ∷ xs) = xs

-- A step of the loops. A failed exchange loads the pair anew.
pub data Move (m : Top) : Phase → Top → Phase → Type 0 where
  read_push_ptr : {x : ℕ} → Move m (push_ptr x) m (push_id x m.top_ptr)
  read_push_id : {x : ℕ} {p : Option ℕ} → Move m (push_id x p) m (push_link x p m.check_id)
  link :
      {x : ℕ} {p : Option ℕ} {id : ℕ}
      → Move m (push_link x p id) (record m { next = assign m.next x p }) (push_swap x p id)
  push_win :
      {x : ℕ} {p : Option ℕ} {id : ℕ}
      → m.top_ptr ≡ p
      → m.check_id ≡ id
      → Move m
          (push_swap x p id)
          (record m { top_ptr = some x; check_id = id + 1; nodes = x ∷ m.nodes })
          (pushed x)
  push_lose :
      {x : ℕ} {p : Option ℕ} {id : ℕ}
      → (m.top_ptr ≢ p) ⊎ (m.check_id ≢ id)
      → Move m (push_swap x p id) m (push_link x m.top_ptr m.check_id)
  read_pop_ptr : Move m pop_ptr m (pop_id m.top_ptr)
  read_pop_id : {p : Option ℕ} → Move m (pop_id p) m (pop_next p m.check_id)
  read_next :
      {p : Option ℕ} {a id : ℕ} → p ≡ some a → Move m (pop_next p id) m (pop_swap a id (m.next a))
  pop_win :
      {a id : ℕ} {after : Option ℕ}
      → m.top_ptr ≡ some a
      → m.check_id ≡ id
      → Move m
          (pop_swap a id after)
          (record m { top_ptr = after; check_id = id + 1; nodes = without_first m.nodes })
          (popped a)
  pop_lose :
      {a id : ℕ} {after : Option ℕ}
      → (m.top_ptr ≢ some a) ⊎ (m.check_id ≢ id)
      → Move m (pop_swap a id after) m (pop_next m.top_ptr m.check_id)
