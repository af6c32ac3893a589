-- ===== src/LockFreeQ/Current.antt =====
-- What a thread in EnQ or DeQ of a LockFreeQ knows, while another one writes
-- (ServerCore/Memory/LockFreeQ.h).
use mmoserver.Shared.{ℕ, ◌≡◌, ◌≢◌, arith, List, ◌∙◌, ap, ◌<◌, none, some}
use mmoserver.Families.{assign, occurrences}
use mmoserver.LockFreeQ.Defs.{
  Link, null, tag, node, Memory, Phase, enq_ptr, enq_id, enq_cas1, enq_help, enq_linked, deq_next,
  note, idle, enq_tag, enq_stamp, enq_ptr, enq_id, enq_cas1, enq_help, enq_help_id, enq_help_cas,
  enq_linked, enq_cas2, deq_data, deq_cas,
}
use mmoserver.LockFreeQ.System.{carries, set_rear}
use mmoserver.LockFreeQ.Shape.{IsSeen, Shape, in_queue}
use mmoserver.LockFreeQ.Writes.{behind_rear, rear_aside, next_in}
use mmoserver.LockFreeQ.Local.{IsCurrent, stamping}

pub IsSeen-note : (seen : List ℕ) (c r : Link) → IsSeen seen c → IsSeen (note r seen) c
IsSeen-note seen (tag k) (tag l) h = omega arith
IsSeen-note seen (tag k) null h = h
IsSeen-note seen (tag k) (node q) h = h
IsSeen-note seen null r h = elim h [ ]
IsSeen-note seen (node q) r h = elim h [ ]

tag-ne : (seen : List ℕ) (k : ℕ) (c : Link) → IsSeen seen c → occurrences k seen ≡ 0 → tag k ≢ c
tag-ne seen k (tag l) h new e = ground arith
tag-ne seen k null h new e = h
tag-ne seen k (node q) h new e = h

module _ {A : Type 0} {m : Memory A} (shape : Shape m) where
  -- A node that is not in the queue and not the thread's is written.
  module _ (x : ℕ) (w : Link) (content : ℕ → A) (aside : in_queue x m.front_ptr m.nodes m.extra ≡ 0)
      (same : (y : ℕ) → x ≢ y → content y ≡ m.content y) where
    pub write-IsCurrent :
        (q : Phase A)
        → carries x q ≡ 0
        → ((k : ℕ) → w ≡ tag k → stamping k q ≡ 0)
        → IsCurrent m q
        → IsCurrent (record m { next = assign m.next x w; content = content }) q
    write-IsCurrent idle apart new c = tt
    write-IsCurrent (enq_tag d y) apart new c = same y (ground arith) ∙ c
    write-IsCurrent (enq_stamp d y k) apart new c =
        (same y (ground arith) ∙ c.0, λ p e. ground (arith, new k, c.1 p), c.2)
    write-IsCurrent (enq_ptr d y k) apart new c = (same y (ground arith) ∙ c.0, ground arith)
    write-IsCurrent (enq_id d y k p) apart new c = (same y (ground arith) ∙ c.0, ground arith)
    write-IsCurrent (enq_cas1 d y k p c) apart new h =
        ((same y (ground arith) ∙ h.0.0, ground arith), h.1)
    write-IsCurrent (enq_help d y k p c) apart new h =
        ((same y (ground arith) ∙ h.0.0, ground arith), h.1)
    write-IsCurrent (enq_help_id d y k p c q) apart new h = (
      (same y (ground arith) ∙ h.0.0, ground arith),
      h.1,
      λ f g. ground (arith, h.2 f g, rear_aside shape x aside),
    )
    write-IsCurrent (enq_help_cas d y k p c q c') apart new h = (
      (same y (ground arith) ∙ h.0.0, ground arith),
      h.1,
      λ f g. ground (
        arith,
        h.2 f g,
        rear_aside shape x aside,
        behind_rear shape q (ap m.next g ∙ (h.2 f g).0),
      ),
    )
    write-IsCurrent (enq_linked y p c) apart new h = h
    write-IsCurrent (enq_cas2 y p c c') apart new h = (h.0, λ f. ground (arith, h.1 f))
    write-IsCurrent (deq_data p i q) apart new h = (h.0, λ f g. ground (arith, h.1 f g))
    write-IsCurrent (deq_cas p i q v) apart new h = (
      h.0,
      λ f g. (
        ground (arith, h.1 f g),
        same q (ground (arith, next_in shape q (ap m.next g ∙ (h.1 f g).0))) ∙ (h.1 f g).1,
      ),
    )
    write-IsCurrent q apart new c = c

  pub fill-IsCurrent :
      (x : ℕ) (content : ℕ → A)
      → in_queue x m.front_ptr m.nodes m.extra ≡ 0
      → ((y : ℕ) → x ≢ y → content y ≡ m.content y)
      → (q : Phase A) → carries x q ≡ 0
      → IsCurrent m q
      → IsCurrent (record m { content = content }) q
  fill-IsCurrent x content aside same idle apart c = tt
  fill-IsCurrent x content aside same (enq_tag d y) apart c = same y (ground arith) ∙ c
  fill-IsCurrent x content aside same (enq_stamp d y k) apart c =
      (same y (ground arith) ∙ c.0, c.1, c.2)
  fill-IsCurrent x content aside same (enq_ptr d y k) apart c = (same y (ground arith) ∙ c.0, c.1)
  fill-IsCurrent x content aside same (enq_id d y k p) apart c = (same y (ground arith) ∙ c.0, c.1)
  fill-IsCurrent x content aside same (enq_cas1 d y k p c) apart h =
      ((same y (ground arith) ∙ h.0.0, h.0.1), h.1)
  fill-IsCurrent x content aside same (enq_help d y k p c) apart h =
      ((same y (ground arith) ∙ h.0.0, h.0.1), h.1)
  fill-IsCurrent x content aside same (enq_help_id d y k p c q) apart h =
      ((same y (ground arith) ∙ h.0.0, h.0.1), h.1, h.2)
  fill-IsCurrent x content aside same (enq_help_cas d y k p c q c') apart h =
      ((same y (ground arith) ∙ h.0.0, h.0.1), h.1, h.2)
  fill-IsCurrent x content aside same (deq_cas p i q v) apart h = (
    h.0,
    λ f g. (
      (h.1 f g).0,
      same q (ground (arith, next_in shape q (ap m.next g ∙ (h.1 f g).0))) ∙ (h.1 f g).1,
    ),
  )
  fill-IsCurrent x content aside same q apart c = c

  -- A node is linked behind the rear node, which no other thread has.
  pub link-IsCurrent :
      (x : ℕ) (enqueued : List A)
      → m.extra ≡ none
      → (q : Phase A) → carries m.rear_ptr q ≡ 0
      → IsCurrent m q
      → IsCurrent
          (record m {
            next = assign m.next m.rear_ptr (node x);
            extra = some x;
            enqueued = enqueued;
          })
          q
  link-IsCurrent x more alone idle apart c = tt
  link-IsCurrent x more alone (enq_stamp d y k) apart c = (c.0, λ p e. ground (arith, c.1 p), c.2)
  link-IsCurrent x more alone (enq_ptr d y k) apart c = (c.0, ground arith)
  link-IsCurrent x more alone (enq_id d y k p) apart c = (c.0, ground arith)
  link-IsCurrent x more alone (enq_cas1 d y k p c) apart h = ((h.0.0, ground arith), h.1)
  link-IsCurrent x more alone (enq_help d y k p c) apart h = ((h.0.0, ground arith), h.1)
  link-IsCurrent x more alone (enq_help_id d y k p c q) apart h =
      ((h.0.0, ground arith), h.1, λ f g. ground (arith, h.2 f g, behind_rear shape q))
  link-IsCurrent x more alone (enq_help_cas d y k p c q c') apart h =
      ((h.0.0, ground arith), h.1, λ f g. ground (arith, h.2 f g, behind_rear shape q))
  link-IsCurrent x more alone (enq_linked y p c) apart h = (h.0, λ f. ground (arith, h.1 f))
  link-IsCurrent x more alone (enq_cas2 y p c c') apart h = (h.0, λ f. ground (arith, h.1 f))
  link-IsCurrent x more alone (deq_data p i q) apart h =
      (h.0, λ f g. ground (arith, h.1 f g, behind_rear shape q))
  link-IsCurrent x more alone (deq_cas p i q v) apart h =
      (h.0, λ f g. ground (arith, h.1 f g, behind_rear shape q))
  link-IsCurrent x more alone q apart c = c

  -- The rear gets a tag that it has not had.
  pub rear-IsCurrent :
      (q k : ℕ)
      → m.next q ≡ tag k
      → occurrences k m.seen ≡ 0
      → (p : Phase A) → IsCurrent m p
      → IsCurrent (set_rear m q (tag k)) p
  rear-IsCurrent q k e new idle c = tt
  rear-IsCurrent q k e new (enq_stamp d y l) c = (c.0, c.1, ground (arith, c.1 q))
  rear-IsCurrent q k e new (enq_cas1 d y l p c) h = (h.0, IsSeen-note m.seen c (tag k) h.1)
  rear-IsCurrent q k e new (enq_help d y l p c) h = (h.0, IsSeen-note m.seen c (tag k) h.1)
  rear-IsCurrent q k e new (enq_help_id d y l p c r) h =
      (h.0, IsSeen-note m.seen c (tag k) h.1, λ f g. absurd (tag-ne m.seen k c h.1 new f))
  rear-IsCurrent q k e new (enq_help_cas d y l p c r c') h =
      (h.0, IsSeen-note m.seen c (tag k) h.1, λ f g. absurd (tag-ne m.seen k c h.1 new f))
  rear-IsCurrent q k e new (enq_linked y p c) h =
      (IsSeen-note m.seen c (tag k) h.0, λ f. absurd (tag-ne m.seen k c h.0 new f))
  rear-IsCurrent q k e new (enq_cas2 y p c c') h =
      (IsSeen-note m.seen c (tag k) h.0, λ f. absurd (tag-ne m.seen k c h.0 new f))
  rear-IsCurrent q k e new p c = c

-- The front goes on, with a greater id.
pub front-IsCurrent :
    {A : Type 0} (m : Memory A) (ptr id : ℕ) (nodes : List ℕ) (dequeued : List A)
    → m.front_id < id
    → (p : Phase A) → IsCurrent m p
    → IsCurrent (record m { front_ptr = ptr; front_id = id; nodes = nodes; dequeued = dequeued }) p
front-IsCurrent m ptr id nodes dequeued more idle c = tt
front-IsCurrent m ptr id nodes dequeued more (deq_next p i) h = omega arith
front-IsCurrent m ptr id nodes dequeued more (deq_data p i q) h =
    (omega arith, λ f g. absurd (omega arith))
front-IsCurrent m ptr id nodes dequeued more (deq_cas p i q v) h =
    (omega arith, λ f g. absurd (omega arith))
front-IsCurrent m ptr id nodes dequeued more p c = c

pub count-IsCurrent :
    {A : Type 0} (m : Memory A) (rear_id added removed : ℕ) (p : Phase A)
    → IsCurrent m p
    → IsCurrent (record m { rear_id = rear_id; added = added; removed = removed }) p
count-IsCurrent m rear_id added removed idle c = tt
count-IsCurrent m rear_id added removed p c = c
