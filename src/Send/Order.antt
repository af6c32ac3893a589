-- ===== src/Send/Order.antt =====
-- The sending flag and the order of the packets of a session (ServerCore/Network/NetworkTask.cpp).
use mmoserver.Shared.{
  ℕ, ◌<◌, ◌≡◌, refl, sym, ap, ◌∙◌, List, [], ◌∷◌, ◌++◌, append_assoc, arith, if◌then◌else◌,
}
use mmoserver.Families.{
  assign, sum, sum-assign, gather, gather-assign, gather-alone, gather-nil, sum-eq-zero,
  weight-le-sum,
}
use mmoserver.Send.System.{
  SendTask, absent, posted, draining, drained, in_flight, deleted, Sender, Step, en_q, worker_push,
  begin_other, begin, de_q, de_q_none, nothing, wsa_send, wsa_refused, complete, Reach, start,
  later,
}

module _ {ℓ} {Packet : Type ℓ} where
  -- A task that has set `m_isSending` and not yet cleared it.
  abbrev pub sends : SendTask Packet → ℕ
  sends absent = 0
  sends posted = 0
  sends (draining ps) = 1
  sends (drained ps) = 1
  sends (in_flight ps) = 1
  sends deleted = 0

  -- The packets that a task has taken off the queue and not yet passed to WSASend.
  abbrev pub to_send : SendTask Packet → List Packet
  to_send absent = []
  to_send posted = []
  to_send (draining ps) = ps
  to_send (drained ps) = ps
  to_send (in_flight ps) = []
  to_send deleted = []

  to_send-nil : (t : SendTask Packet) → sends t ≡ 0 → to_send t ≡ []
  to_send-nil absent h = refl
  to_send-nil posted h = refl
  to_send-nil (draining ps) h = ground arith
  to_send-nil (drained ps) h = ground arith
  to_send-nil (in_flight ps) h = refl
  to_send-nil deleted h = refl

  abbrev pub in_hand : ℕ → (ℕ → SendTask Packet) → List Packet
  in_hand n f = gather sends to_send n f

  -- One task sends when the flag is set, and none else. What was queued is what WSASend was called
  -- with, then what that task has in hand, then the queue.
  pub record IsSerial (n : ℕ) (s : Sender Packet) : Type ℓ where
    pub single : sum sends n s.tasks ≡ (if s.is_sending then 1 else 0)
    pub ordered : s.enqueued ≡ s.requested ++ (in_hand n s.tasks ++ s.send_queue)

  same_hand :
      (n i : ℕ) (f : ℕ → SendTask Packet) (t : SendTask Packet)
      → to_send t ≡ to_send (f i)
      → in_hand n (assign f i t) ≡ in_hand n f
  same_hand n i f t e = gather-assign sends to_send n f i t e

  module _ {n : ℕ} {s : Sender Packet} (c : IsSerial n s) (i : ℕ) (lt : i < n) where
    -- The sending task has all of the packets in hand,
    hand : sends (s.tasks i) ≡ 1 → in_hand n s.tasks ≡ to_send (s.tasks i)
    hand o =
        gather-alone sends to_send to_send-nil n s.tasks i lt
          (ground (arith, c.single, weight-le-sum sends n s.tasks i lt))

    -- also when it goes on,
    new_hand :
        (t : SendTask Packet)
        → sends (s.tasks i) ≡ 1
        → sends t ≡ 1
        → in_hand n (assign s.tasks i t) ≡ to_send t
    new_hand t o o' =
        gather-alone sends to_send to_send-nil n (assign s.tasks i t) i lt (
          ground (
            arith,
            c.single,
            sum-assign sends n s.tasks i t lt,
            weight-le-sum sends n s.tasks i lt,
          ))
        ∙ ground arith

    -- and none is left when it ends.
    no_hand :
        (t : SendTask Packet)
        → sends (s.tasks i) ≡ 1
        → sends t ≡ 0
        → in_hand n (assign s.tasks i t) ≡ []
    no_hand t o o' = gather-nil sends to_send to_send-nil n (assign s.tasks i t) (
        ground
          (arith, c.single, sum-assign sends n s.tasks i t lt, weight-le-sum sends n s.tasks i lt))

  Step-IsSerial : {n : ℕ} {s t : Sender Packet} → Step n s t → IsSerial n s → IsSerial n t
  Step-IsSerial {n} {s} (en_q p) c = record {
    single = c.single;
    ordered = ground (
      arith,
      c.ordered,
      append_assoc s.requested (in_hand n s.tasks ++ s.send_queue) (p ∷ []),
      append_assoc (in_hand n s.tasks) s.send_queue (p ∷ []),
    );
  }
  Step-IsSerial {n} {s} (worker_push i lt e some_posting) c = record {
    single = ground (arith, c.single, sum-assign sends n s.tasks i posted lt);
    ordered = ground (arith, c.ordered, same_hand n i s.tasks posted);
  }
  Step-IsSerial {n} {s} (begin_other i lt e on) c = record {
    single = ground (arith, c.single, sum-assign sends n s.tasks i deleted lt);
    ordered = ground (arith, c.ordered, same_hand n i s.tasks deleted);
  }
  Step-IsSerial {n} {s} (begin i lt e off) c = record {
    single = ground (arith, c.single, sum-assign sends n s.tasks i (draining []) lt);
    ordered = ground (arith, c.ordered, same_hand n i s.tasks (draining []));
  }
  Step-IsSerial {n} {s} (de_q i ps p rest lt e q) c = record {
    single = ground (arith, c.single, sum-assign sends n s.tasks i (draining (ps ++ p ∷ [])) lt);
    ordered = ground (
      arith,
      c.ordered,
      hand c i lt,
      new_hand c i lt (draining (ps ++ p ∷ [])),
      append_assoc ps (p ∷ []) rest,
    );
  }
  Step-IsSerial {n} {s} (de_q_none i ps lt e) c = record {
    single = ground (arith, c.single, sum-assign sends n s.tasks i (drained ps) lt);
    ordered = ground (arith, c.ordered, same_hand n i s.tasks (drained ps));
  }
  Step-IsSerial {n} {s} (nothing i lt e) c = record {
    single = ground (
      arith,
      c.single,
      sum-assign sends n s.tasks i deleted lt,
      weight-le-sum sends n s.tasks i lt,
    );
    ordered = ground (arith, c.ordered, same_hand n i s.tasks deleted);
  }
  Step-IsSerial {n} {s} (wsa_send i p ps lt e) c = record {
    single = ground (arith, c.single, sum-assign sends n s.tasks i (in_flight (p ∷ ps)) lt);
    ordered = ground (
      arith,
      c.ordered,
      hand c i lt,
      new_hand c i lt (in_flight (p ∷ ps)),
      append_assoc s.requested (p ∷ ps) s.send_queue,
    );
  }
  Step-IsSerial {n} {s} (wsa_refused i p ps lt e) c = record {
    single = ground (
      arith,
      c.single,
      sum-assign sends n s.tasks i deleted lt,
      weight-le-sum sends n s.tasks i lt,
    );
    ordered = ground (
      arith,
      c.ordered,
      hand c i lt,
      no_hand c i lt deleted,
      append_assoc s.requested (p ∷ ps) s.send_queue,
    );
  }
  Step-IsSerial {n} {s} (complete i ps lt e) c = record {
    single = ground (
      arith,
      c.single,
      sum-assign sends n s.tasks i deleted lt,
      weight-le-sum sends n s.tasks i lt,
    );
    ordered = ground (arith, c.ordered, same_hand n i s.tasks deleted);
  }

  -- In every reachable state at most one task of the session sends, and exactly one while
  -- `m_isSending` is set; and WSASend was called with the first of the queued packets, each once and
  -- in order, behind which come those that the sending task has taken and those in the queue.
  pub Reach-IsSerial : {n : ℕ} {s : Sender Packet} → Reach n s → IsSerial n s
  Reach-IsSerial {n} start = record {
    single = sum-eq-zero sends n (λ i. absent) (λ i. refl);
    ordered =
        ap (λ l. l ++ [])
          (sym (
            gather-nil sends to_send to_send-nil n (λ i. absent)
              (sum-eq-zero sends n (λ i. absent) (λ i. refl))));
  }
  Reach-IsSerial (later r st) = Step-IsSerial st (Reach-IsSerial r)
