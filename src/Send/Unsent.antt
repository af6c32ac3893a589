-- ===== src/Send/Unsent.antt =====
-- A packet that is queued while another send is under way.
use mmoserver.Shared.{ℕ, ◌<◌, ◌≡◌, refl, false, true, List, [], ◌∷◌, ◌++◌, arith}
use mmoserver.Families.{assign, sum, sum-assign, weight-le-sum}
use mmoserver.Send.System.{
  SendTask, absent, posted, draining, drained, in_flight, deleted, Sender, en_q, worker_push,
  begin_other, complete, Reach, later, Step,
}
use mmoserver.Send.Order.{sends, Reach-IsSerial}

module _ {Packet : Type 0} where
  -- A task that has still to run.
  abbrev pub active : SendTask Packet → ℕ
  active absent = 0
  active posted = 1
  active (draining ps) = 1
  active (drained ps) = 1
  active (in_flight ps) = 1
  active deleted = 0

  -- A state in which a packet is queued and nothing is left that would send it: no producer on its
  -- way to the completion port, and no task.
  pub record IsForgotten (n : ℕ) (s : Sender Packet) (p : Packet) : Type 0 where
    pub queued : s.send_queue ≡ p ∷ []
    pub free : s.is_sending ≡ false
    pub no_producer : s.posting ≡ 0
    pub no_task : sum active n s.tasks ≡ 0

  -- Some steps from `s`.
  pub data Runs (n : ℕ) (s : Sender Packet) : Sender Packet → Type 0 where
    here : Runs n s s
    further : {t u : Sender Packet} → Runs n s t → Step n t u → Runs n s u

  Runs-Reach : {n : ℕ} {s t : Sender Packet} → Reach n s → Runs n s t → Reach n t
  Runs-Reach r here = r
  Runs-Reach r (further rs st) = later (Runs-Reach r rs) st

  -- How `s` becomes `t` by one call of `Send`, with `p`, and with no call of WSASend; and then `p` is
  -- forgotten.
  pub record Forgets (n : ℕ) (s : Sender Packet) (p : Packet) (t : Sender Packet) : Type 0 where
    pub steps : Runs n s t
    pub reached : Reach n t
    pub only_send : t.enqueued ≡ s.enqueued ++ p ∷ []
    pub no_request : t.requested ≡ s.requested
    pub forgotten : IsForgotten n t p

  -- Whenever in a reachable state one send is in flight, nothing else is going on, a further task can
  -- be made and the queue is empty, there are steps from this state that put one packet into the
  -- queue, the given one, call WSASend with nothing, and end where this packet is queued and no
  -- producer or task is left that would send it.
  pub forget :
      {n : ℕ} {s : Sender Packet}
      → Reach n s
      → (i j : ℕ) (ps : List Packet) (p : Packet) → i < n
      → j < n
      → s.tasks i ≡ in_flight ps
      → s.tasks j ≡ absent
      → s.send_queue ≡ []
      → s.posting ≡ 0
      → sum active n s.tasks ≡ 1
      → (t : Sender Packet) × Forgets n s p t
  forget {n} {s} r i j ps p hi hj ei ej none_queued none_posting alone =
      let steps =
        further
          (further (further (further here (en_q p)) (worker_push j hj ej (omega arith)))
            (begin_other j hj (ground arith) on))
          (complete i ps hi (ground arith)) in
      (
        _,
        record {
          steps = steps;
          reached = Runs-Reach r steps;
          only_send = refl;
          no_request = refl;
          forgotten = record {
            queued = ground arith;
            free = refl;
            no_producer = omega arith;
            no_task = ground (
              arith,
              sum-assign active n s.tasks j posted hj,
              sum-assign active n (assign s.tasks j posted) j deleted hj,
              sum-assign active n (assign (assign s.tasks j posted) j deleted) i deleted hi,
            );
          };
        },
      )
    where
      on : s.is_sending ≡ true
      on = ground (arith, (Reach-IsSerial r).single, weight-le-sum sends n s.tasks i hi)
