-- ===== src/LockFree/FreeList.antt =====
-- FreeList of ServerCore/Memory/FreeList.h: the heap blocks with their headers, `Alloc` and `Free`
-- as the steps of `n` threads. The loops are those of Top. The exchange of `m_freeFlag` with the
-- guard before it is one step, and so is what follows a loop: the block is then with one thread.
-- `_aligned_malloc` is documented to give a block that no earlier call gave.
use mmoserver.Shared.{ℕ, ◌+◌, ◌<◌, ◌≡◌, Bool, true, false, none, []}
use mmoserver.Families.{assign}
use mmoserver.LockFree.Top.{Top, Phase, out, pop_ptr, pop_next, popped, push_ptr, pushed, Move}

-- MARK_FRONT of ServerCore/Memory/Global.h.
abbrev pub mark_front : ℕ
mark_front = 0x1234567876543210

pub record MemHeader : Type 0 where
  pub mark_id : ℕ
  pub mark_value : ℕ
  pub free_flag : Bool
  pub size : ℕ

-- Blocks are numbered in the order of their allocation: `fresh` is the number of blocks so far. A
-- header of a higher number is memory that is no block.
pub record FreeList : Type 0 where
  pub top : Top
  pub phase : ℕ → Phase
  pub free_list_uid : ℕ
  pub headers : ℕ → MemHeader
  pub fresh : ℕ

abbrev pub set_phase : FreeList → ℕ → Phase → FreeList
set_phase s i p = record s { phase = assign s.phase i p }

abbrev pub set_flag : FreeList → ℕ → Bool → FreeList
set_flag s a b = record s { headers = assign s.headers a (record (s.headers a) { free_flag = b }) }

-- The constructor of a node writes null to `m_next`.
abbrev pub construct_at : FreeList → ℕ → FreeList
construct_at s a = record s { top = record (s.top) { next = assign s.top.next a none } }

abbrev pub allocate_memory_from_heap : FreeList → ℕ → FreeList
allocate_memory_from_heap s size =
    construct_at
      (record s {
        headers = assign s.headers s.fresh (record {
          mark_id = s.free_list_uid;
          mark_value = mark_front;
          free_flag = false;
          size = size;
        });
        fresh = s.fresh + 1;
      })
      s.fresh

-- `Free` does not throw "Underflow Violation".
abbrev pub IsMarked : FreeList → ℕ → Type 0
IsMarked s a = ((s.headers a).mark_id ≡ s.free_list_uid) × ((s.headers a).mark_value ≡ mark_front)

pub data Step (n : ℕ) (s : FreeList) : FreeList → Type 0 where
  -- A step of the loop of `Alloc` or of `Free`.
  loop :
      {p p' : Phase} {m : Top} (i : ℕ)
      → i < n
      → s.phase i ≡ p
      → Move s.top p m p'
      → Step n s (set_phase (record s { top = m }) i p')
  -- Alloc
  alloc : (i : ℕ) → i < n → s.phase i ≡ out → Step n s (set_phase s i pop_ptr)
  alloc_heap :
      (i id size : ℕ)
      → i < n
      → s.phase i ≡ pop_next none id
      → Step n s (set_phase (allocate_memory_from_heap s size) i out)
  alloc_return :
      (i a : ℕ)
      → i < n
      → s.phase i ≡ popped a
      → Step n s (set_phase (construct_at (set_flag s a false) a) i out)
  -- AllocateMemoryFromHeap, called by itself
  allocate_memory :
      (i size : ℕ) → i < n → s.phase i ≡ out → Step n s (allocate_memory_from_heap s size)
  -- Free
  free_underflow : (i a : ℕ) → i < n → s.phase i ≡ out → ¬ IsMarked s a → Step n s s
  free_twice :
      (i a : ℕ)
      → i < n
      → a < s.fresh
      → s.phase i ≡ out
      → IsMarked s a
      → (s.headers a).free_flag ≡ true
      → Step n s s
  free :
      (i a : ℕ)
      → i < n
      → a < s.fresh
      → s.phase i ≡ out
      → IsMarked s a
      → (s.headers a).free_flag ≡ false
      → Step n s (set_phase (set_flag s a true) i (push_ptr a))
  free_return : (i a : ℕ) → i < n → s.phase i ≡ pushed a → Step n s (set_phase s i out)

-- The constructor, over the id that it takes and the memory that is there.
abbrev pub init : ℕ → (ℕ → MemHeader) → FreeList
init uid memory = record {
  top = record { top_ptr = none; check_id = 0; next = λ a. none; nodes = [] };
  phase = λ i. out;
  free_list_uid = uid;
  headers = memory;
  fresh = 0;
}

pub data Reach (n : ℕ) : FreeList → Type 0 where
  start : (uid : ℕ) (memory : ℕ → MemHeader) → Reach n (init uid memory)
  later : {s t : FreeList} → Reach n s → Step n s t → Reach n t
