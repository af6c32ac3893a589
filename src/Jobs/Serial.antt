-- ===== src/Jobs/Serial.antt =====
-- Which thread of a JobDispatcher has which JobQueue (ServerCore/Network/JobDispatcher.cpp).
use mmoserver.Shared.{ℕ, ◌+◌, ◌≤◌, ◌<◌, ◌≡◌, ◌≢◌, refl, List, [], arith}
use mmoserver.Families.{occurrences, sum, weight-le-sum, weights-le-sum, other-alone}
use mmoserver.Jobs.System.{
  unlocked, Worker, waiting, holding, executing, repushing, stopped, System, Reach,
}
use mmoserver.Jobs.Invariant.{owns, taken, Reach-IsCounted}

taken-eq-zero : {Job : Type 0} (q : ℕ) (w : Worker Job) → owns q w ≡ 0 → taken q w ≡ 0
taken-eq-zero q waiting h = refl
taken-eq-zero q (holding p) h = refl
taken-eq-zero q (executing p js size) h = ground arith
taken-eq-zero q (repushing p) h = refl
taken-eq-zero q stopped h = refl

module _ {Job : Type 0} {n : ℕ} {s : System Job} (r : Reach n s) where
  -- Two threads that have the same queue in their hands are one thread, and meanwhile the queue is
  -- not in the active list.
  pub one_owner :
      (q i j : ℕ)
      → i < n
      → j < n
      → owns q (s.workers i) ≡ 1
      → owns q (s.workers j) ≡ 1
      → (i ≡ j) × (occurrences q s.active_job_queue ≡ 0)
  one_owner q i j hi hj oi oj = ground (
    arith,
    Reach-IsCounted r q,
    weight-le-sum (owns q) n s.workers i hi,
    weights-le-sum (owns q) n s.workers i j,
    weights-le-sum (owns q) n s.workers j i,
  )

  -- A queue with a job in it is in the active list or with a thread, once no producer is in `Push`.
  pub no_lost_wakeup :
      (q : ℕ)
      → (s.queues q).stage ≡ unlocked
      → (s.queues q).data_queue ≢ []
      → occurrences q s.active_job_queue + sum (owns q) n s.workers ≡ 1
  no_lost_wakeup q u some_jobs = ground (arith, Reach-IsCounted r q)

  -- A thread that has just taken a queue off the active list finds a job in it.
  pub pop-nonempty : (q i : ℕ) → i < n → s.workers i ≡ holding q → (s.queues q).data_queue ≢ []
  pop-nonempty q i lt e none_left = ground (
    arith,
    Reach-IsCounted r q,
    weight-le-sum (owns q) n s.workers i lt,
    other-alone (owns q) (taken q) (taken-eq-zero q) n s.workers i lt,
  )

  -- Subtracting the jobs that were run does not make the count negative.
  pub decrement_bounds :
      (q i size : ℕ) (js : List Job)
      → i < n
      → s.workers i ≡ executing q js size
      → size ≤ (s.queues q).job_count
  decrement_bounds q i size js lt e =
      ground (arith, Reach-IsCounted r q, weight-le-sum (taken q) n s.workers i lt)
