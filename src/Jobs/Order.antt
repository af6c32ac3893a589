-- ===== src/Jobs/Order.antt =====
-- The order of the jobs of a JobQueue (ServerCore/Network/JobQueue.cpp).
use mmoserver.Shared.{
  ℕ, ◌<◌, ◌≡◌, refl, sym, ap, ap₂, ◌∙◌, List, [], ◌∷◌, ◌++◌, length, append_assoc, append-nil, ◌==◌,
  if◌then◌else◌, arith, length-eq-zero,
}
use mmoserver.Families.{
  occurrences, assign, sum, sum-assign, gather, gather-assign, gather-alone, gather-nil,
  sum-eq-zero,
}
use mmoserver.Jobs.System.{
  unlocked, Worker, waiting, holding, executing, repushing, stopped, System, Step, append,
  count_first, count_more, activate, pop_none, pop_job_queue, pop_messages, execute, decrement_more,
  decrement_done, repush, shut_down, stop, init, Reach, start, later,
}
use mmoserver.Jobs.Invariant.{owns, IsCounted, Reach-IsCounted}

module _ {Job : Type 0} where
  -- The jobs of `q` that a thread has still to run.
  abbrev pub to_run : ℕ → Worker Job → List Job
  to_run q (executing p js size) = if p == q then js else []
  to_run q waiting = []
  to_run q (holding p) = []
  to_run q (repushing p) = []
  to_run q stopped = []

  to_run-nil : (q : ℕ) (w : Worker Job) → owns q w ≡ 0 → to_run q w ≡ []
  to_run-nil q waiting h = refl
  to_run-nil q (holding p) h = refl
  to_run-nil q (executing p js size) h = ground arith
  to_run-nil q (repushing p) h = refl
  to_run-nil q stopped h = refl

  abbrev pub in_hand : ℕ → ℕ → (ℕ → Worker Job) → List Job
  in_hand q n f = gather (owns q) (to_run q) n f

  -- Of the jobs pushed, first come those executed, then those in a thread's hands, then the queue.
  abbrev pub IsOrdered : ℕ → System Job → ℕ → Type 0
  IsOrdered n s q =
      (s.queues q).pushed
      ≡ (s.queues q).executed ++ (in_hand q n s.workers ++ (s.queues q).data_queue)

  -- A thread whose list for `q` does not change.
  same_hand :
      (n q i : ℕ) (f : ℕ → Worker Job) (w : Worker Job)
      → to_run q w ≡ to_run q (f i)
      → in_hand q n (assign f i w) ≡ in_hand q n f
  same_hand n q i f w e = gather-assign (owns q) (to_run q) n f i w e

  module _ {n : ℕ} {s : System Job} (q : ℕ) (c : IsCounted n s q) where
    -- The owner of `q` has all of the jobs in hand.
    owner_hand :
        (i : ℕ) → i < n → owns q (s.workers i) ≡ 1 → in_hand q n s.workers ≡ to_run q (s.workers i)
    owner_hand i lt o =
        gather-alone (owns q) (to_run q) (to_run-nil q) n s.workers i lt (ground (arith, c))

    -- So it is after a move that leaves it the owner.
    new_hand :
        (i : ℕ) (w : Worker Job)
        → i < n
        → owns q (s.workers i) ≡ 1
        → owns q w ≡ 1
        → in_hand q n (assign s.workers i w) ≡ to_run q w
    new_hand i w lt o o' =
        gather-alone (owns q) (to_run q) (to_run-nil q) n (assign s.workers i w) i lt
          (ground (arith, c, sum-assign (owns q) n s.workers i w lt))
        ∙ ground arith

  Step-IsOrdered :
      {n : ℕ} {s t : System Job} (q : ℕ)
      → Step n s t
      → IsCounted n s q
      → IsOrdered n s q
      → IsOrdered n t q
  Step-IsOrdered {n} {s} q (append p j unl) c o = ground (
    arith,
    append_assoc (s.queues p).executed (in_hand q n s.workers ++ (s.queues p).data_queue) (j ∷ []),
    append_assoc (in_hand q n s.workers) (s.queues p).data_queue (j ∷ []),
  )
  Step-IsOrdered q (count_first p app zero_jobs) c o = ground arith
  Step-IsOrdered q (count_more p app some_jobs) c o = ground arith
  Step-IsOrdered q (activate p cnt) c o = ground arith
  Step-IsOrdered q (pop_none i lt e) c o = o
  Step-IsOrdered {n} {s} q (pop_job_queue i p rest lt e a) c o =
      ground (arith, same_hand n q i s.workers (holding p))
  Step-IsOrdered {n} {s} q (pop_messages i p lt e unl) c o =
      let w : Worker Job = executing p (s.queues p).data_queue (length (s.queues p).data_queue) in
      ground (
        arith,
        same_hand n q i s.workers w,
        owner_hand q c i lt,
        new_hand q c i w lt,
        append-nil (s.queues q).data_queue,
      )
  Step-IsOrdered {n} {s} q (execute i p j js size lt e) c o = ground (
    arith,
    same_hand n q i s.workers (executing p js size),
    owner_hand q c i lt,
    new_hand q c i (executing p js size) lt,
    append_assoc (s.queues q).executed (j ∷ []) (js ++ (s.queues q).data_queue),
  )
  Step-IsOrdered {n} {s} q (decrement_more i p size lt e more) c o =
      ground (arith, same_hand n q i s.workers (repushing p))
  Step-IsOrdered {n} {s} q (decrement_done i p size lt e last) c o =
      ground (arith, same_hand n q i s.workers waiting)
  Step-IsOrdered {n} {s} q (repush i p lt e) c o = ground (arith, same_hand n q i s.workers waiting)
  Step-IsOrdered q shut_down c o = o
  Step-IsOrdered {n} {s} q (stop i lt e off) c o = ground (arith, same_hand n q i s.workers stopped)

  init-IsOrdered : (n q : ℕ) → IsOrdered n init q
  init-IsOrdered n q =
      ap (λ l. l ++ [])
        (sym (
          gather-nil (owns q) (to_run q) (to_run-nil q) n (λ i. waiting)
            (sum-eq-zero (owns q) n (λ i. waiting) (λ i. refl))))

  -- In every reachable state the jobs of a queue that were executed are the first of those that
  -- were pushed; behind them come those that a thread holds, and then those in the queue.
  pub Reach-IsOrdered : {n : ℕ} {s : System Job} → Reach n s → (q : ℕ) → IsOrdered n s q
  Reach-IsOrdered {n} start q = init-IsOrdered n q
  Reach-IsOrdered (later r st) q = Step-IsOrdered q st (Reach-IsCounted r q) (Reach-IsOrdered r q)

  -- A queue that is not active, in no thread's hands and not being pushed to has had all its jobs
  -- executed, in the order of the pushes.
  pub quiet-executed :
      {n : ℕ} {s : System Job}
      → Reach n s
      → (q : ℕ) → occurrences q s.active_job_queue ≡ 0
      → sum (owns q) n s.workers ≡ 0
      → (s.queues q).stage ≡ unlocked
      → (s.queues q).executed ≡ (s.queues q).pushed
  quiet-executed {n} {s} r q not_active no_owner unl =
      let none_left : (s.queues q).data_queue ≡ [] =
        length-eq-zero (s.queues q).data_queue (ground (arith, Reach-IsCounted r q)) in
      sym (
        Reach-IsOrdered r q
        ∙ ap₂ (λ h d. (s.queues q).executed ++ (h ++ d))
            (gather-nil (owns q) (to_run q) (to_run-nil q) n s.workers no_owner) none_left
        ∙ append-nil (s.queues q).executed)
