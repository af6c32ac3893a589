-- ===== src/LockFreeQ/Local.antt =====
-- What a thread in EnQ or DeQ of a LockFreeQ knows, and what it counts for
-- (ServerCore/Memory/LockFreeQ.h).
use mmoserver.Shared.{ℕ, ◌+◌, ◌≤◌, ◌<◌, ◌≡◌, ◌≢◌, none, some, ◌==◌, if◌then◌else◌, length, leb}
use mmoserver.Families.{occurrences, sum}
use mmoserver.LockFreeQ.Defs.{
  Link, tag, node, Memory, Phase, idle, enq_fill, enq_tag, enq_stamp, enq_ptr, enq_id, enq_cas1,
  enq_help, enq_help_id, enq_help_cas, enq_linked, enq_cas2, enq_count, enq_crashed, deq_fail,
  deq_ptr, deq_id, deq_next, deq_data, deq_cas, deq_free, deq_crashed,
}
use mmoserver.LockFreeQ.System.{uses}
use mmoserver.LockFreeQ.Shape.{IsSeen, Shape}

module _ {A : Type 0} where
  -- A thread that has node `x` with data `d` and tag `k`, not linked.
  abbrev pub IsFilled : Memory A → A → ℕ → ℕ → Type 0
  IsFilled m d x k = (m.content x ≡ d) × (m.next x ≡ tag k)

  abbrev pub IsCurrent : Memory A → Phase A → Type 0
  IsCurrent m idle = Unit
  IsCurrent m (enq_fill d x) = Unit
  IsCurrent m (enq_tag d x) = m.content x ≡ d
  IsCurrent m (enq_stamp d x k) =
      (m.content x ≡ d) × ((p : ℕ) → m.next p ≢ tag k) × (occurrences k m.seen ≡ 0)
  IsCurrent m (enq_ptr d x k) = IsFilled m d x k
  IsCurrent m (enq_id d x k p) = IsFilled m d x k
  IsCurrent m (enq_cas1 d x k p c) = IsFilled m d x k × IsSeen m.seen c
  IsCurrent m (enq_help d x k p c) = IsFilled m d x k × IsSeen m.seen c
  IsCurrent m (enq_help_id d x k p c q) =
      IsFilled m d x k × IsSeen m.seen c × (m.rear_check ≡ c → m.rear_ptr ≡ p → m.next p ≡ node q)
  IsCurrent m (enq_help_cas d x k p c q c') =
      IsFilled m d x k
      × IsSeen m.seen c
      × (m.rear_check ≡ c → m.rear_ptr ≡ p → (m.next p ≡ node q) × (m.next q ≡ c'))
  IsCurrent m (enq_linked x p c) =
      IsSeen m.seen c × (m.rear_check ≡ c → (m.rear_ptr ≡ p) × (m.extra ≡ some x))
  IsCurrent m (enq_cas2 x p c c') =
      IsSeen m.seen c × (m.rear_check ≡ c → (m.rear_ptr ≡ p) × (m.extra ≡ some x) × (m.next x ≡ c'))
  IsCurrent m enq_count = Unit
  IsCurrent m enq_crashed = Unit
  IsCurrent m deq_fail = Unit
  IsCurrent m deq_ptr = Unit
  IsCurrent m (deq_id p) = Unit
  IsCurrent m (deq_next p i) = i ≤ m.front_id
  IsCurrent m (deq_data p i q) =
      (i ≤ m.front_id) × (m.front_id ≡ i → m.front_ptr ≡ p → m.next p ≡ node q)
  IsCurrent m (deq_cas p i q v) =
      (i ≤ m.front_id)
      × (m.front_id ≡ i → m.front_ptr ≡ p → (m.next p ≡ node q) × (m.content q ≡ v))
  IsCurrent m (deq_free p v) = Unit
  IsCurrent m deq_crashed = Unit

  -- A thread that has counted an item down and not taken it out.
  abbrev pub reserved : Phase A → ℕ
  reserved idle = 0
  reserved (enq_fill d x) = 0
  reserved (enq_tag d x) = 0
  reserved (enq_stamp d x k) = 0
  reserved (enq_ptr d x k) = 0
  reserved (enq_id d x k p) = 0
  reserved (enq_cas1 d x k p c) = 0
  reserved (enq_help d x k p c) = 0
  reserved (enq_help_id d x k p c q) = 0
  reserved (enq_help_cas d x k p c q c') = 0
  reserved (enq_linked x p c) = 0
  reserved (enq_cas2 x p c c') = 0
  reserved enq_count = 0
  reserved enq_crashed = 0
  reserved deq_fail = 0
  reserved deq_ptr = 1
  reserved (deq_id p) = 1
  reserved (deq_next p i) = 1
  reserved (deq_data p i q) = 1
  reserved (deq_cas p i q v) = 1
  reserved (deq_free p v) = 0
  reserved deq_crashed = 1

  -- A thread that found the count too low and has not restored it.
  abbrev pub failing : Phase A → ℕ
  failing idle = 0
  failing (enq_fill d x) = 0
  failing (enq_tag d x) = 0
  failing (enq_stamp d x k) = 0
  failing (enq_ptr d x k) = 0
  failing (enq_id d x k p) = 0
  failing (enq_cas1 d x k p c) = 0
  failing (enq_help d x k p c) = 0
  failing (enq_help_id d x k p c q) = 0
  failing (enq_help_cas d x k p c q c') = 0
  failing (enq_linked x p c) = 0
  failing (enq_cas2 x p c c') = 0
  failing enq_count = 0
  failing enq_crashed = 0
  failing deq_fail = 1
  failing deq_ptr = 0
  failing (deq_id p) = 0
  failing (deq_next p i) = 0
  failing (deq_data p i q) = 0
  failing (deq_cas p i q v) = 0
  failing (deq_free p v) = 0
  failing deq_crashed = 0

  -- A thread that has linked a node and not counted it.
  abbrev pub linking : Phase A → ℕ
  linking idle = 0
  linking (enq_fill d x) = 0
  linking (enq_tag d x) = 0
  linking (enq_stamp d x k) = 0
  linking (enq_ptr d x k) = 0
  linking (enq_id d x k p) = 0
  linking (enq_cas1 d x k p c) = 0
  linking (enq_help d x k p c) = 0
  linking (enq_help_id d x k p c q) = 0
  linking (enq_help_cas d x k p c q c') = 0
  linking (enq_linked x p c) = 1
  linking (enq_cas2 x p c c') = 1
  linking enq_count = 1
  linking enq_crashed = 0
  linking deq_fail = 0
  linking deq_ptr = 0
  linking (deq_id p) = 0
  linking (deq_next p i) = 0
  linking (deq_data p i q) = 0
  linking (deq_cas p i q v) = 0
  linking (deq_free p v) = 0
  linking deq_crashed = 0

  -- A thread that has tag `t` and has not written it.
  abbrev pub stamping : ℕ → Phase A → ℕ
  stamping t idle = 0
  stamping t (enq_fill d x) = 0
  stamping t (enq_tag d x) = 0
  stamping t (enq_stamp d x k) = if k == t then 1 else 0
  stamping t (enq_ptr d x k) = 0
  stamping t (enq_id d x k p) = 0
  stamping t (enq_cas1 d x k p c) = 0
  stamping t (enq_help d x k p c) = 0
  stamping t (enq_help_id d x k p c q) = 0
  stamping t (enq_help_cas d x k p c q c') = 0
  stamping t (enq_linked x p c) = 0
  stamping t (enq_cas2 x p c c') = 0
  stamping t enq_count = 0
  stamping t enq_crashed = 0
  stamping t deq_fail = 0
  stamping t deq_ptr = 0
  stamping t (deq_id p) = 0
  stamping t (deq_next p i) = 0
  stamping t (deq_data p i q) = 0
  stamping t (deq_cas p i q v) = 0
  stamping t (deq_free p v) = 0
  stamping t deq_crashed = 0

  -- A thread that linked a node when the rear had the check value `r`, and has not tried the second
  -- exchange.
  abbrev pub IsLinker : Link → Phase A → Type 0
  IsLinker r idle = ⊥
  IsLinker r (enq_fill d x) = ⊥
  IsLinker r (enq_tag d x) = ⊥
  IsLinker r (enq_stamp d x k) = ⊥
  IsLinker r (enq_ptr d x k) = ⊥
  IsLinker r (enq_id d x k p) = ⊥
  IsLinker r (enq_cas1 d x k p c) = ⊥
  IsLinker r (enq_help d x k p c) = ⊥
  IsLinker r (enq_help_id d x k p c q) = ⊥
  IsLinker r (enq_help_cas d x k p c q c') = ⊥
  IsLinker r (enq_linked x p c) = r ≡ c
  IsLinker r (enq_cas2 x p c c') = r ≡ c
  IsLinker r enq_count = ⊥
  IsLinker r enq_crashed = ⊥
  IsLinker r deq_fail = ⊥
  IsLinker r deq_ptr = ⊥
  IsLinker r (deq_id p) = ⊥
  IsLinker r (deq_next p i) = ⊥
  IsLinker r (deq_data p i q) = ⊥
  IsLinker r (deq_cas p i q v) = ⊥
  IsLinker r (deq_free p v) = ⊥
  IsLinker r deq_crashed = ⊥

  abbrev pub IsSized : ℕ → Memory A → (ℕ → Phase A) → Type 0
  IsSized n m phase =
      (length m.nodes + (elim m.extra [ none ↦ 0 | some x ↦ 1 ]) + m.removed
        ≡ m.added + (sum reserved n phase + sum failing n phase + sum linking n phase))
      × (m.removed ≤ m.added + sum failing n phase)

  pub record Inv (n : ℕ) (m : Memory A) (phase : ℕ → Phase A) : Type 0 where
    pub shape : Shape m
    pub single : (a : ℕ) → uses a n m phase ≤ 1
    pub stamped : (t : ℕ) → sum (stamping t) n phase ≤ (if leb t m.rear_id then 1 else 0)
    pub current : (i : ℕ) → i < n → IsCurrent m (phase i)
    pub sizes : IsSized n m phase
    pub linker : m.extra ≢ none → (j : ℕ) × (j < n) × IsLinker m.rear_check (phase j)
