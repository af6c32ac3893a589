-- ===== src/Jobs/System.antt =====
-- JobQueue::Push, Pop and Decrement of ServerCore/Network/JobQueue.cpp and JobDispatcher::Run,
-- PushJobQueue and PopJobQueue of ServerCore/Network/JobDispatcher.cpp, as the steps of threads
-- that interleave: each step is one critical section of `m_lock` or one atomic operation.
use mmoserver.Shared.{ℕ, ◌+◌, ◌-◌, ◌≤◌, ◌<◌, ◌≡◌, Bool, true, false, List, [], ◌∷◌, ◌++◌, length}
use mmoserver.Families.{assign}

-- Where the thread that holds the lock of a queue stands in JobQueue::Push: nowhere, behind
-- `emplace_back`, or behind a `fetch_add` that returned 0.
pub data PushStage : Type 0 where
  unlocked appended counted : PushStage

-- JobQueue. `pushed` and `executed` record the history of the queue; the code does not read them.
pub record JobQueue (Job : Type 0) : Type 0 where
  pub data_queue : List Job
  pub job_count : ℕ
  pub stage : PushStage
  pub pushed : List Job
  pub executed : List Job

-- A thread in JobDispatcher::Run: at the head of the loop, behind PopJobQueue, in the loop over the
-- `messages` of Pop (those still to run, and their number), before the second PushJobQueue, or
-- behind the end of the loop.
pub data Worker (Job : Type 0) : Type 0 where
  waiting : Worker Job
  holding : ℕ → Worker Job
  executing : ℕ → List Job → ℕ → Worker Job
  repushing : ℕ → Worker Job
  stopped : Worker Job

-- A dispatcher, its queues and its threads, by index.
pub record System (Job : Type 0) : Type 0 where
  pub running : Bool
  pub active_job_queue : List ℕ
  pub queues : ℕ → JobQueue Job
  pub workers : ℕ → Worker Job

module _ {Job : Type 0} where
  abbrev pub set_queue : System Job → ℕ → JobQueue Job → System Job
  set_queue s q x = record s { queues = assign s.queues q x }

  abbrev pub set_worker : System Job → ℕ → Worker Job → System Job
  set_worker s i w = record s { workers = assign s.workers i w }

  -- `push_back` on the list of active queues.
  abbrev pub push_job_queue : System Job → ℕ → System Job
  push_job_queue s q = record s { active_job_queue = s.active_job_queue ++ q ∷ [] }

  -- Pop: all that the queue holds, nothing when it is empty.
  abbrev pub pop : JobQueue Job → List Job × JobQueue Job
  pop x = (x.data_queue, record x { data_queue = [] })

  -- Decrement; the subtraction stops at 0, where the code goes below it.
  abbrev pub decrement : ℕ → JobQueue Job → JobQueue Job
  decrement size x = record x { job_count = x.job_count - size }

  -- One step of a producer of queue `q`, or of the thread `i` of `n`.
  pub data Step (n : ℕ) (s : System Job) : System Job → Type 0 where
    -- JobQueue::Push
    append :
        (q : ℕ) (j : Job)
        → (s.queues q).stage ≡ unlocked
        → Step n s (
            set_queue s q (record (s.queues q) {
              data_queue = (s.queues q).data_queue ++ j ∷ [];
              pushed = (s.queues q).pushed ++ j ∷ [];
              stage = appended;
            }))
    count_first :
        (q : ℕ)
        → (s.queues q).stage ≡ appended
        → (s.queues q).job_count ≡ 0
        → Step n s (set_queue s q (record (s.queues q) { job_count = 1; stage = counted }))
    count_more :
        (q : ℕ)
        → (s.queues q).stage ≡ appended
        → 0 < (s.queues q).job_count
        → Step n s (
            set_queue s q
              (record (s.queues q) { job_count = (s.queues q).job_count + 1; stage = unlocked }))
    activate :
        (q : ℕ)
        → (s.queues q).stage ≡ counted
        → Step n s (push_job_queue (set_queue s q (record (s.queues q) { stage = unlocked })) q)
    -- JobDispatcher::Run
    pop_none : (i : ℕ) → i < n → s.workers i ≡ waiting → Step n s s
    pop_job_queue :
        (i q : ℕ) (rest : List ℕ)
        → i < n
        → s.workers i ≡ waiting
        → s.active_job_queue ≡ q ∷ rest
        → Step n s (set_worker (record s { active_job_queue = rest }) i (holding q))
    pop_messages :
        (i q : ℕ)
        → i < n
        → s.workers i ≡ holding q
        → (s.queues q).stage ≡ unlocked
        → Step n s (
            set_worker
              (set_queue s q (pop (s.queues q)).1)
              i
              (executing q (pop (s.queues q)).0 (length (pop (s.queues q)).0)))
    execute :
        (i q : ℕ) (j : Job) (js : List Job) (size : ℕ)
        → i < n
        → s.workers i ≡ executing q (j ∷ js) size
        → Step n s (
            set_worker
              (set_queue s q (record (s.queues q) { executed = (s.queues q).executed ++ j ∷ [] }))
              i
              (executing q js size))
    decrement_more :
        (i q size : ℕ)
        → i < n
        → s.workers i ≡ executing q [] size
        → size < (s.queues q).job_count
        → Step n s (set_worker (set_queue s q (decrement size (s.queues q))) i (repushing q))
    decrement_done :
        (i q size : ℕ)
        → i < n
        → s.workers i ≡ executing q [] size
        → (s.queues q).job_count ≤ size
        → Step n s (set_worker (set_queue s q (decrement size (s.queues q))) i waiting)
    repush :
        (i q : ℕ)
        → i < n
        → s.workers i ≡ repushing q
        → Step n s (set_worker (push_job_queue s q) i waiting)
    -- ~JobDispatcher
    shut_down : Step n s (record s { running = false })
    stop :
        (i : ℕ)
        → i < n
        → s.workers i ≡ waiting
        → s.running ≡ false
        → Step n s (set_worker s i stopped)

  abbrev pub empty_queue : JobQueue Job
  empty_queue = record {
    data_queue = [];
    job_count = 0;
    stage = unlocked;
    pushed = [];
    executed = [];
  }

  -- The constructors: no job anywhere, and every thread at the head of its loop.
  abbrev pub init : System Job
  init = record {
    running = true;
    active_job_queue = [];
    queues = λ q. empty_queue;
    workers = λ i. waiting;
  }

  pub data Reach (n : ℕ) : System Job → Type 0 where
    start : Reach n init
    later : {s t : System Job} → Reach n s → Step n s t → Reach n t
