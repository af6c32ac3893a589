-- ===== src/Send/Queued.antt =====
-- NetworkSession::Send of ServerCore/Network/NetworkSession.h behind the enciphering, and
-- NetworkTaskSend of ServerCore/Network/NetworkTask.cpp, over the LockFreeQ that `m_sendQueue` is.
-- An activity is a call of Send together with the task that it makes: nothing of the one overlaps
-- with the other, so that activity `i` is thread `i` of the queue.
use mmoserver.Shared.{ℕ, ◌<◌, ◌≡◌, ◌≢◌, Bool, true, false, List, [], ◌∷◌, ◌++◌}
use mmoserver.Families.{assign}
use mmoserver.LockFreeQ.Defs.{Phase, Memory}
use mmoserver.LockFreeQ.System.{Move, uses}
use mmoserver.LockFreeQ.System as Queue
use mmoserver.LockFreeQ.Atomic.{call}
use mmoserver.Calls.{Call, outside, putting, put, taking, took, refused, crashed}

pub data Activity (Packet : Type 0) : Type 0 where
  absent : Activity Packet
  producing : Packet → Activity Packet  -- in Send, up to EnQ
  posting : Activity Packet  -- in Send, behind EnQ
  posted : Activity Packet
  draining : List Packet → Activity Packet
  drained : List Packet → Activity Packet
  in_flight : List Packet → Activity Packet
  deleted : Activity Packet

-- What an activity makes of a step of its call of EnQ or DeQ.
pub data Uses {Packet : Type 0}
    : Activity Packet → Call Packet → Call Packet → Activity Packet → Type 0 where
  en_q : {p : Packet} → Uses (producing p) outside (putting p) (producing p)
  en_q_full : {p : Packet} → Uses (producing p) outside crashed (producing p)
  en_q_end : {p : Packet} → Uses (producing p) put outside posting
  de_q : {ps : List Packet} → Uses (draining ps) outside taking (draining ps)
  de_q_few : {ps : List Packet} → Uses (draining ps) outside refused (draining ps)
  de_q_end :
      {ps : List Packet} {p : Packet}
      → Uses (draining ps) (took p) outside (draining (ps ++ p ∷ []))
  de_q_none : {ps : List Packet} → Uses (draining ps) refused outside (drained ps)
  inside : {a : Activity Packet} {c c' : Call Packet} → c ≢ outside → c' ≢ outside → Uses a c c' a

-- The session with its queue. `requested` records what WSASend was called with; the code does not
-- read it.
pub record Session (Packet : Type 0) : Type 0 where
  pub queue : Queue.System Packet
  pub is_sending : Bool
  pub activities : ℕ → Activity Packet
  pub requested : List Packet

module _ {Packet : Type 0} where
  abbrev pub set_activity : Session Packet → ℕ → Activity Packet → Session Packet
  set_activity s i a = record s { activities = assign s.activities i a }

  pub data Step (blank : Packet) (max_count n : ℕ) (s : Session Packet)
      : Session Packet → Type 0 where
    -- NetworkSession::Send
    send :
        (i : ℕ) (p : Packet)
        → i < n
        → s.activities i ≡ absent
        → Step blank max_count n s (set_activity s i (producing p))
    worker_push :
        (i : ℕ)
        → i < n
        → s.activities i ≡ posting
        → Step blank max_count n s (set_activity s i posted)
    -- a step in EnQ or DeQ
    use_queue :
        {p p' : Phase Packet} {m : Memory Packet} (i : ℕ) (a : Activity Packet)
        → i < n
        → s.queue.phase i ≡ p
        → Move blank max_count
            (λ x. uses x n s.queue.memory s.queue.phase ≡ 0)
            s.queue.memory
            p
            m
            p'
        → Uses (s.activities i) (call p) (call p') a
        → Step blank max_count n s (
            set_activity
              (record s { queue = record { memory = m; phase = assign s.queue.phase i p' } })
              i
              a)
    -- NetworkTaskSend::Start
    begin_other :
        (i : ℕ)
        → i < n
        → s.activities i ≡ posted
        → s.is_sending ≡ true
        → Step blank max_count n s (set_activity s i deleted)
    begin :
        (i : ℕ)
        → i < n
        → s.activities i ≡ posted
        → s.is_sending ≡ false
        → Step blank max_count n s (set_activity (record s { is_sending = true }) i (draining []))
    nothing :
        (i : ℕ)
        → i < n
        → s.activities i ≡ drained []
        → Step blank max_count n s (set_activity (record s { is_sending = false }) i deleted)
    wsa_send :
        (i : ℕ) (p : Packet) (ps : List Packet)
        → i < n
        → s.activities i ≡ drained (p ∷ ps)
        → Step blank max_count n s
            (set_activity (record s { requested = s.requested ++ p ∷ ps }) i (in_flight (p ∷ ps)))
    wsa_refused :
        (i : ℕ) (p : Packet) (ps : List Packet)
        → i < n
        → s.activities i ≡ drained (p ∷ ps)
        → Step blank max_count n s (
            set_activity
              (record s { requested = s.requested ++ p ∷ ps; is_sending = false })
              i
              deleted)
    -- NetworkTaskSend::Complete
    complete :
        (i : ℕ) (ps : List Packet)
        → i < n
        → s.activities i ≡ in_flight ps
        → Step blank max_count n s (set_activity (record s { is_sending = false }) i deleted)

  -- A new session.
  abbrev pub init : Packet → ℕ → ℕ → Session Packet
  init blank max_count n = record {
    queue = Queue.init blank max_count n;
    is_sending = false;
    activities = λ i. absent;
    requested = [];
  }

  pub data Reach (blank : Packet) (max_count n : ℕ) : Session Packet → Type 0 where
    start : Reach blank max_count n (init blank max_count n)
    later :
        {s t : Session Packet}
        → Reach blank max_count n s
        → Step blank max_count n s t
        → Reach blank max_count n t
