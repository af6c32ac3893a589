-- ===== src/LockFreeQ/System.antt =====
-- EnQ and DeQ of ServerCore/Memory/LockFreeQ.h as steps of threads that interleave; each step is one
-- access to shared memory. The stack of free nodes is FreeList: `unused` holds of the nodes that it
-- may give, and its Alloc writes null to both fields of a node. The two counters for statistics are
-- left out.
use mmoserver.Shared.{
  ℕ, ◌+◌, ◌≤◌, ◌<◌, ◌≡◌, ◌≢◌, ◌⊎◌, none, some, [], ◌∷◌, ◌++◌, ◌==◌, if◌then◌else◌, Option,
}
use mmoserver.Families.{assign, occurrences, sum}
use mmoserver.LockFreeQ.Defs.{
  Link, null, tag, node, Memory, Phase, idle, enq_fill, enq_tag, enq_stamp, enq_ptr, enq_id,
  enq_cas1, enq_help, enq_help_id, enq_help_cas, enq_linked, enq_cas2, enq_count, enq_crashed,
  deq_fail, deq_ptr, deq_id, deq_next, deq_data, deq_cas, deq_free, deq_crashed, note,
  without_first,
}

abbrev pub stands_behind : ℕ → Option ℕ → ℕ
stands_behind a none = 0
stands_behind a (some x) = if x == a then 1 else 0

module _ {A : Type 0} where
  -- The exchange of `m_rearCheck`.
  abbrev pub set_rear : Memory A → ℕ → Link → Memory A
  set_rear m q c = record m {
    rear_ptr = q;
    rear_check = c;
    seen = note c m.seen;
    nodes = m.nodes ++ q ∷ [];
    extra = none;
  }

  -- `blank` is the null value of the data, `max_count` is `m_maxQCount`.
  pub data Move (blank : A) (max_count : ℕ) (unused : ℕ → Type 0) (m : Memory A)
      : Phase A → Memory A → Phase A → Type 0 where
    -- EnQ
    enq_full : m.removed + max_count < m.added → Move blank max_count unused m idle m enq_crashed
    alloc :
        {d : A} (x : ℕ)
        → m.added ≤ m.removed + max_count
        → unused x
        → Move blank max_count unused m idle
            (record m { next = assign m.next x null; content = assign m.content x blank })
            (enq_fill d x)
    fill :
        {d : A} {x : ℕ}
        → Move blank max_count unused m
            (enq_fill d x)
            (record m { content = assign m.content x d })
            (enq_tag d x)
    new_tag :
        {d : A} {x : ℕ}
        → Move blank max_count unused m
            (enq_tag d x)
            (record m { rear_id = m.rear_id + 1 })
            (enq_stamp d x (m.rear_id + 1))
    stamp :
        {d : A} {x k : ℕ}
        → Move blank max_count unused m
            (enq_stamp d x k)
            (record m { next = assign m.next x (tag k) })
            (enq_ptr d x k)
    read_rear_ptr :
        {d : A} {x k : ℕ}
        → Move blank max_count unused m (enq_ptr d x k) m (enq_id d x k m.rear_ptr)
    read_rear_id :
        {d : A} {x k p : ℕ}
        → Move blank max_count unused m (enq_id d x k p) m (enq_cas1 d x k p m.rear_check)
    cas1_win :
        {d : A} {x k p : ℕ} {c : Link}
        → m.next p ≡ c
        → Move blank max_count unused m
            (enq_cas1 d x k p c)
            (record m {
              next = assign m.next p (node x);
              extra = some x;
              enqueued = m.enqueued ++ d ∷ [];
            })
            (enq_linked x p c)
    cas1_lose :
        {d : A} {x k p : ℕ} {c : Link}
        → m.next p ≢ c
        → Move blank max_count unused m (enq_cas1 d x k p c) m (enq_help d x k p c)
    help_tail :
        {d : A} {x k p l : ℕ} {c : Link}
        → m.next p ≡ tag l
        → Move blank max_count unused m (enq_help d x k p c) m (enq_ptr d x k)
    help_null :
        {d : A} {x k p : ℕ} {c : Link}
        → m.next p ≡ null
        → Move blank max_count unused m (enq_help d x k p c) m enq_crashed
    help_node :
        {d : A} {x k p q : ℕ} {c : Link}
        → m.next p ≡ node q
        → Move blank max_count unused m (enq_help d x k p c) m (enq_help_id d x k p c q)
    help_id :
        {d : A} {x k p q : ℕ} {c : Link}
        → Move blank max_count unused m
            (enq_help_id d x k p c q)
            m
            (enq_help_cas d x k p c q (m.next q))
    help_win :
        {d : A} {x k p q : ℕ} {c c' : Link}
        → m.rear_ptr ≡ p
        → m.rear_check ≡ c
        → Move blank max_count unused m
            (enq_help_cas d x k p c q c')
            (set_rear m q c')
            (enq_ptr d x k)
    help_lose :
        {d : A} {x k p q : ℕ} {c c' : Link}
        → (m.rear_ptr ≢ p) ⊎ (m.rear_check ≢ c)
        → Move blank max_count unused m (enq_help_cas d x k p c q c') m (enq_ptr d x k)
    read_own :
        {x p : ℕ} {c : Link}
        → Move blank max_count unused m (enq_linked x p c) m (enq_cas2 x p c (m.next x))
    cas2_win :
        {x p : ℕ} {c c' : Link}
        → m.rear_ptr ≡ p
        → m.rear_check ≡ c
        → Move blank max_count unused m (enq_cas2 x p c c') (set_rear m x c') enq_count
    cas2_lose :
        {x p : ℕ} {c c' : Link}
        → (m.rear_ptr ≢ p) ⊎ (m.rear_check ≢ c)
        → Move blank max_count unused m (enq_cas2 x p c c') m enq_count
    count : Move blank max_count unused m enq_count (record m { added = m.added + 1 }) idle
    -- DeQ
    reserve :
        m.removed + 1 ≤ m.added
        → Move blank max_count unused m idle (record m { removed = m.removed + 1 }) deq_ptr
    fall_short :
        m.added < m.removed + 1
        → Move blank max_count unused m idle (record m { removed = m.removed + 1 }) deq_fail
    restore : Move blank max_count unused m deq_fail (record m { added = m.added + 1 }) idle
    read_front_ptr : Move blank max_count unused m deq_ptr m (deq_id m.front_ptr)
    read_front_id : {p : ℕ} → Move blank max_count unused m (deq_id p) m (deq_next p m.front_id)
    next_tail :
        {p i l : ℕ}
        → m.next p ≡ tag l
        → Move blank max_count unused m (deq_next p i) m (deq_next p i)
    next_null :
        {p i : ℕ} → m.next p ≡ null → Move blank max_count unused m (deq_next p i) m deq_crashed
    next_node :
        {p i q : ℕ}
        → m.next p ≡ node q
        → Move blank max_count unused m (deq_next p i) m (deq_data p i q)
    read_data :
        {p i q : ℕ} → Move blank max_count unused m (deq_data p i q) m (deq_cas p i q (m.content q))
    deq_win :
        {p i q : ℕ} {v : A}
        → m.front_ptr ≡ p
        → m.front_id ≡ i
        → Move blank max_count unused m
            (deq_cas p i q v)
            (record m {
              front_ptr = q;
              front_id = i + 1;
              nodes = without_first m.nodes;
              dequeued = m.dequeued ++ v ∷ [];
            })
            (deq_free p v)
    deq_lose :
        {p i q : ℕ} {v : A}
        → (m.front_ptr ≢ p) ⊎ (m.front_id ≢ i)
        → Move blank max_count unused m (deq_cas p i q v) m (deq_next m.front_ptr m.front_id)
    deq_return : {p : ℕ} {v : A} → Move blank max_count unused m (deq_free p v) m idle

  -- A thread that has node `a` to itself: before it links it, or after it took it out.
  abbrev pub carries : ℕ → Phase A → ℕ
  carries a idle = 0
  carries a (enq_fill d x) = if x == a then 1 else 0
  carries a (enq_tag d x) = if x == a then 1 else 0
  carries a (enq_stamp d x k) = if x == a then 1 else 0
  carries a (enq_ptr d x k) = if x == a then 1 else 0
  carries a (enq_id d x k p) = if x == a then 1 else 0
  carries a (enq_cas1 d x k p c) = if x == a then 1 else 0
  carries a (enq_help d x k p c) = if x == a then 1 else 0
  carries a (enq_help_id d x k p c q) = if x == a then 1 else 0
  carries a (enq_help_cas d x k p c q c') = if x == a then 1 else 0
  carries a (enq_linked x p c) = 0
  carries a (enq_cas2 x p c c') = 0
  carries a enq_count = 0
  carries a enq_crashed = 0
  carries a deq_fail = 0
  carries a deq_ptr = 0
  carries a (deq_id p) = 0
  carries a (deq_next p i) = 0
  carries a (deq_data p i q) = 0
  carries a (deq_cas p i q v) = 0
  carries a (deq_free p v) = if p == a then 1 else 0
  carries a deq_crashed = 0

  -- In how many places node `a` is: at the front, behind it, or with one of the `n` threads.
  abbrev pub uses : ℕ → ℕ → Memory A → (ℕ → Phase A) → ℕ
  uses a n m phase =
      (if m.front_ptr == a then 1 else 0)
      + occurrences a m.nodes
      + stands_behind a m.extra
      + sum (carries a) n phase

-- The queue and its threads.
pub record System (A : Type 0) : Type 0 where
  pub memory : Memory A
  pub phase : ℕ → Phase A

module _ {A : Type 0} (blank : A) (max_count n : ℕ) where
  pub data Step (s : System A) : System A → Type 0 where
    step :
        {p p' : Phase A} {m : Memory A} (i : ℕ)
        → i < n
        → s.phase i ≡ p
        → Move blank max_count (λ x. uses x n s.memory s.phase ≡ 0) s.memory p m p'
        → Step s (record { memory = m; phase = assign s.phase i p' })

  -- The constructor: one node, of number 0, at both ends.
  abbrev pub init : System A
  init = record {
    memory = record {
      front_ptr = 0;
      front_id = 0;
      rear_ptr = 0;
      rear_check = tag 0;
      rear_id = 0;
      next = assign (λ a. null) 0 (tag 0);
      content = λ a. blank;
      added = 0;
      removed = 0;
      nodes = [];
      extra = none;
      seen = 0 ∷ [];
      enqueued = [];
      dequeued = [];
    };
    phase = λ i. idle;
  }

  pub data Reach : System A → Type 0 where
    start : Reach init
    later : {s t : System A} → Reach s → Step s t → Reach t
