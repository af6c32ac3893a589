-- ===== src/Jobs/Invariant.antt =====
-- The counts of a JobQueue (ServerCore/Network/JobQueue.cpp).
use mmoserver.Shared.{
  refl, ℕ, ◌+◌, ◌≡◌, [], ◌∷◌, length, length-append, ◌==◌, if◌then◌else◌, arith, ◌≤◌,
}
use mmoserver.Families.{
  occurrences, occurrences-append, sum, sum-assign, weight-le-sum, sum-eq-zero,
}
use mmoserver.Jobs.System.{
  PushStage, unlocked, appended, counted, Worker, waiting, holding, executing, repushing, stopped,
  System, Step, append, count_first, count_more, activate, pop_none, pop_job_queue, pop_messages,
  execute, decrement_more, decrement_done, repush, shut_down, stop, init, Reach, start, later,
}

abbrev pub activating : PushStage → ℕ
activating counted = 1
activating unlocked = 0
activating appended = 0

abbrev pub uncounted : PushStage → ℕ
uncounted appended = 1
uncounted unlocked = 0
uncounted counted = 0

module _ {Job : Type 0} where
  -- A thread that has queue `q` in its hands.
  abbrev pub owns : ℕ → Worker Job → ℕ
  owns q waiting = 0
  owns q (holding p) = if p == q then 1 else 0
  owns q (executing p js size) = if p == q then 1 else 0
  owns q (repushing p) = if p == q then 1 else 0
  owns q stopped = 0

  -- The jobs of `q` that a thread has taken and not yet subtracted from the count.
  abbrev pub taken : ℕ → Worker Job → ℕ
  taken q (executing p js size) = if p == q then size else 0
  taken q waiting = 0
  taken q (holding p) = 0
  taken q (repushing p) = 0
  taken q stopped = 0

  -- A queue with a positive count is in one place: in the active list, with one thread, or with
  -- the producer that is about to activate it. A queue whose count is 0 is nowhere. The count is
  -- that of the jobs in the queue and with the threads, but for one that was just appended. A
  -- producer that holds the lock has its job still in the queue.
  pub record IsCounted (n : ℕ) (s : System Job) (q : ℕ) : Type 0 where
    pub placed :
        occurrences q s.active_job_queue + activating (s.queues q).stage + sum (owns q) n s.workers
        ≡ (if (s.queues q).job_count == 0 then 0 else 1)
    pub balanced :
        (s.queues q).job_count + uncounted (s.queues q).stage
        ≡ length (s.queues q).data_queue + sum (taken q) n s.workers
    pub locked :
        activating (s.queues q).stage + uncounted (s.queues q).stage
        ≤ length (s.queues q).data_queue

  Step-IsCounted :
      {n : ℕ} {s t : System Job} (q : ℕ) → Step n s t → IsCounted n s q → IsCounted n t q
  Step-IsCounted {s} q (append p j unl) c =
      ground (arith, length-append (s.queues p).data_queue (j ∷ []))
  Step-IsCounted q (count_first p app zero_jobs) c = ground arith
  Step-IsCounted q (count_more p app some_jobs) c = ground arith
  Step-IsCounted {s} q (activate p cnt) c =
      ground (arith, occurrences-append q s.active_job_queue (p ∷ []))
  Step-IsCounted q (pop_none i lt e) c = c
  Step-IsCounted {n} {s} q (pop_job_queue i p rest lt e a) c = ground (
    arith,
    sum-assign (owns q) n s.workers i (holding p) lt,
    sum-assign (taken q) n s.workers i (holding p) lt,
  )
  Step-IsCounted {n} {s} q (pop_messages i p lt e unl) c = ground (
    arith,
    sum-assign (owns q) n s.workers i
        (executing p (s.queues p).data_queue (length (s.queues p).data_queue)) lt,
    sum-assign (taken q) n s.workers i
        (executing p (s.queues p).data_queue (length (s.queues p).data_queue)) lt,
  )
  Step-IsCounted {n} {s} q (execute i p j js size lt e) c = ground (
    arith,
    sum-assign (owns q) n s.workers i (executing p js size) lt,
    sum-assign (taken q) n s.workers i (executing p js size) lt,
  )
  Step-IsCounted {n} {s} q (decrement_more i p size lt e more) c = ground (
    arith,
    sum-assign (owns q) n s.workers i (repushing p) lt,
    sum-assign (taken q) n s.workers i (repushing p) lt,
  )
  Step-IsCounted {n} {s} q (decrement_done i p size lt e last) c = ground (
    arith,
    sum-assign (owns q) n s.workers i waiting lt,
    sum-assign (taken q) n s.workers i waiting lt,
    weight-le-sum (owns q) n s.workers i lt,
    weight-le-sum (taken q) n s.workers i lt,
  )
  Step-IsCounted {n} {s} q (repush i p lt e) c = ground (
    arith,
    occurrences-append q s.active_job_queue (p ∷ []),
    sum-assign (owns q) n s.workers i waiting lt,
    sum-assign (taken q) n s.workers i waiting lt,
  )
  Step-IsCounted q shut_down c = ground arith
  Step-IsCounted {n} {s} q (stop i lt e off) c = ground (
    arith,
    sum-assign (owns q) n s.workers i stopped lt,
    sum-assign (taken q) n s.workers i stopped lt,
  )

  init-IsCounted : (n q : ℕ) → IsCounted n init q
  init-IsCounted n q = omega (
    arith,
    sum-eq-zero (owns q) n (λ i. waiting) (λ i. refl),
    sum-eq-zero (taken q) n (λ i. waiting) (λ i. refl),
  )

  -- It holds of every queue in every reachable state.
  pub Reach-IsCounted : {n : ℕ} {s : System Job} → Reach n s → (q : ℕ) → IsCounted n s q
  Reach-IsCounted {n} start q = init-IsCounted n q
  Reach-IsCounted (later r st) q = Step-IsCounted q st (Reach-IsCounted r q)
