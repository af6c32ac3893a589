-- ===== src/Send/System.antt =====
-- NetworkSession::Send of ServerCore/Network/NetworkSession.h behind the enciphering, and
-- NetworkTaskSend of ServerCore/Network/NetworkTask.cpp, for one session: the steps of its
-- producers and send tasks, which worker threads run in any interleaving. The send queue is taken as
-- the list of what is in it, and each of its operations, as each access to `m_isSending`, is one
-- step; DeQ may find nothing while it has packets, as that of LockFreeQ may. What `Complete` logs is left out.
use mmoserver.Shared.{ℕ, ◌+◌, ◌-◌, ◌<◌, ◌≡◌, Bool, true, false, List, [], ◌∷◌, ◌++◌}
use mmoserver.Families.{assign}

-- A task: not made yet, in the completion port, in the loop over DeQ with `m_sendingPackets`,
-- behind that loop, between an accepted WSASend and its completion, or deleted.
pub data SendTask {ℓ} (Packet : Type ℓ) : Type ℓ where
  absent : SendTask Packet
  posted : SendTask Packet
  draining : List Packet → SendTask Packet
  drained : List Packet → SendTask Packet
  in_flight : List Packet → SendTask Packet
  deleted : SendTask Packet

-- The session, with the number of producers between EnQ and WorkerPush. `enqueued` and `requested`
-- record what went into the queue and what WSASend was called with; the code does not read them.
pub record Sender {ℓ} (Packet : Type ℓ) : Type ℓ where
  pub send_queue : List Packet
  pub is_sending : Bool
  pub posting : ℕ
  pub tasks : ℕ → SendTask Packet
  pub enqueued : List Packet
  pub requested : List Packet

module _ {ℓ} {Packet : Type ℓ} where
  abbrev pub set_task : Sender Packet → ℕ → SendTask Packet → Sender Packet
  set_task s i t = record s { tasks = assign s.tasks i t }

  -- One step of a producer or of task `i` of `n`.
  pub data Step (n : ℕ) (s : Sender Packet) : Sender Packet → Type ℓ where
    -- NetworkSession::Send
    en_q :
        (p : Packet)
        → Step n s (record s {
          send_queue = s.send_queue ++ p ∷ [];
          enqueued = s.enqueued ++ p ∷ [];
          posting = s.posting + 1;
        })
    worker_push :
        (i : ℕ)
        → i < n
        → s.tasks i ≡ absent
        → 0 < s.posting
        → Step n s (set_task (record s { posting = s.posting - 1 }) i posted)
    -- NetworkTaskSend::Start
    begin_other :
        (i : ℕ) → i < n → s.tasks i ≡ posted → s.is_sending ≡ true → Step n s (set_task s i deleted)
    begin :
        (i : ℕ)
        → i < n
        → s.tasks i ≡ posted
        → s.is_sending ≡ false
        → Step n s (set_task (record s { is_sending = true }) i (draining []))
    de_q :
        (i : ℕ) (ps : List Packet) (p : Packet) (rest : List Packet)
        → i < n
        → s.tasks i ≡ draining ps
        → s.send_queue ≡ p ∷ rest
        → Step n s (set_task (record s { send_queue = rest }) i (draining (ps ++ p ∷ [])))
    de_q_none :
        (i : ℕ) (ps : List Packet)
        → i < n
        → s.tasks i ≡ draining ps
        → Step n s (set_task s i (drained ps))
    nothing :
        (i : ℕ)
        → i < n
        → s.tasks i ≡ drained []
        → Step n s (set_task (record s { is_sending = false }) i deleted)
    wsa_send :
        (i : ℕ) (p : Packet) (ps : List Packet)
        → i < n
        → s.tasks i ≡ drained (p ∷ ps)
        → Step n s
            (set_task (record s { requested = s.requested ++ p ∷ ps }) i (in_flight (p ∷ ps)))
    wsa_refused :
        (i : ℕ) (p : Packet) (ps : List Packet)
        → i < n
        → s.tasks i ≡ drained (p ∷ ps)
        → Step n s (
            set_task (record s { requested = s.requested ++ p ∷ ps; is_sending = false }) i deleted)
    -- NetworkTaskSend::Complete
    complete :
        (i : ℕ) (ps : List Packet)
        → i < n
        → s.tasks i ≡ in_flight ps
        → Step n s (set_task (record s { is_sending = false }) i deleted)

  -- A new session.
  abbrev pub init : Sender Packet
  init = record {
    send_queue = [];
    is_sending = false;
    posting = 0;
    tasks = λ i. absent;
    enqueued = [];
    requested = [];
  }

  pub data Reach (n : ℕ) : Sender Packet → Type ℓ where
    start : Reach n init
    later : {s t : Sender Packet} → Reach n s → Step n s t → Reach n t
