-- ===== src/Send/Refine.antt =====
-- Sending over a LockFreeQ does what sending over a list does (ServerCore/Network/NetworkSession.h,
-- ServerCore/Network/NetworkTask.cpp, ServerCore/Memory/LockFreeQ.h).
use mmoserver.Shared.{
  ℕ, ◌<◌, ◌≡◌, Bool, List, [], ◌∷◌, ◌++◌, refl, arith, subst, sym, ap, append-nil, ◌∙◌,
}
use mmoserver.Families.{assign, assign-elim, sum, sum-assign}
use mmoserver.LockFreeQ.Atomic.{call, items}
use mmoserver.Calls.{
  snoc, begin_put, put_in, end_put, begin_take, take_front, end_take, refuse, end_refuse, full,
  crash_put, crash_take, wait, gained_same, Call, outside, putting, put, took, refused, crashed,
  Act, taking, put_in, gained, take_front, crash_put,
}
use mmoserver.Send.System.{SendTask, Sender}
use mmoserver.Send.System as List
use mmoserver.Send.Queued.{
  Activity, Uses, Session, en_q, en_q_full, en_q_end, de_q, de_q_few, de_q_end, de_q_none, inside,
}
use mmoserver.Send.Queued as Queued

module _ {Packet : Type 0} where
  -- The task of an activity.
  abbrev pub task : Activity Packet × Call Packet → SendTask Packet
  task (Queued.absent, c) = List.absent
  task (Queued.producing p, c) = List.absent
  task (Queued.posting, c) = List.absent
  task (Queued.posted, c) = List.posted
  task (Queued.draining ps, outside) = List.draining ps
  task (Queued.draining ps, took p) = List.draining (ps ++ p ∷ [])
  task (Queued.draining ps, refused) = List.drained ps
  task (Queued.draining ps, c) = List.draining ps
  task (Queued.drained ps, c) = List.drained ps
  task (Queued.in_flight ps, c) = List.in_flight ps
  task (Queued.deleted, c) = List.deleted

  -- An activity between putting its packet and WorkerPush.
  abbrev pub on_way : Activity Packet × Call Packet → ℕ
  on_way (Queued.producing p, put) = 1
  on_way (Queued.producing p, c) = 0
  on_way (Queued.posting, c) = 1
  on_way (a, c) = 0

  -- The call that an activity may be in.
  abbrev pub IsPaired : Activity Packet → Call Packet → Type 0
  IsPaired (Queued.producing p) outside = Unit
  IsPaired (Queued.producing p) (putting d) = p ≡ d
  IsPaired (Queued.producing p) put = Unit
  IsPaired (Queued.producing p) crashed = Unit
  IsPaired (Queued.producing p) c = ⊥
  IsPaired (Queued.draining ps) (putting d) = ⊥
  IsPaired (Queued.draining ps) put = ⊥
  IsPaired (Queued.draining ps) c = Unit
  IsPaired a outside = Unit
  IsPaired a c = ⊥

  paired_putting :
      (b : Activity Packet) (d : Packet) → IsPaired b (putting d) → b ≡ Queued.producing d
  paired_putting (Queued.producing p) d h = ap Queued.producing h
  paired_putting (Queued.draining ps) d h = elim h [ ]
  paired_putting b d h = elim h [ ]

  paired_taking :
      (b : Activity Packet) → IsPaired b taking → (ps : List Packet) × (b ≡ Queued.draining ps)
  paired_taking (Queued.draining ps) h = (ps, refl)
  paired_taking (Queued.producing p) h = elim h [ ]
  paired_taking b h = elim h [ ]

  pub Uses-IsPaired :
      {b b' : Activity Packet} {c c' : Call Packet} {q q' : List Packet}
      → Uses b c c' b'
      → Act snoc q c q' c'
      → IsPaired b c
      → IsPaired b' c'
  Uses-IsPaired en_q begin_put h = refl
  Uses-IsPaired en_q_full full h = tt
  Uses-IsPaired en_q_end end_put h = tt
  Uses-IsPaired de_q begin_take h = tt
  Uses-IsPaired de_q_few refuse h = tt
  Uses-IsPaired de_q_end end_take h = tt
  Uses-IsPaired de_q_none end_refuse h = tt
  Uses-IsPaired (inside off off') begin_put h = absurd (off refl)
  Uses-IsPaired {b} (inside off off') (put_in {d}) h =
      subst (λ a. IsPaired a put) (sym (paired_putting b d h)) tt
  Uses-IsPaired (inside off off') end_put h = absurd (off' refl)
  Uses-IsPaired (inside off off') begin_take h = absurd (off refl)
  Uses-IsPaired {b} (inside off off') (take_front {v} eq) h =
      subst (λ a. IsPaired a (took v)) (sym (paired_taking b h).1) tt
  Uses-IsPaired (inside off off') end_take h = absurd (off' refl)
  Uses-IsPaired (inside off off') refuse h = absurd (off refl)
  Uses-IsPaired (inside off off') end_refuse h = absurd (off' refl)
  Uses-IsPaired (inside off off') full h = absurd (off refl)
  Uses-IsPaired {b} (inside off off') (crash_put {d}) h =
      subst (λ a. IsPaired a crashed) (sym (paired_putting b d h)) tt
  Uses-IsPaired {b} (inside off off') crash_take h =
      subst (λ a. IsPaired a crashed) (sym (paired_taking b h).1) tt
  Uses-IsPaired (inside off off') wait h = h

  module _ (n : ℕ) where
    abbrev pub sender_of :
        List Packet
        → Bool
        → (ℕ → Activity Packet × Call Packet)
        → List Packet
        → List Packet
        → Sender Packet
    sender_of q f g e r = record {
      send_queue = q;
      is_sending = f;
      posting = sum on_way n g;
      tasks = λ i. task (g i);
      enqueued = e;
      requested = r;
    }

    -- The session with the packets in the nodes for its queue.
    abbrev pub sender : Session Packet → Sender Packet
    sender s =
        sender_of (items s.queue.memory) s.is_sending
          (λ i. (s.activities i, call (s.queue.phase i))) s.queue.memory.enqueued s.requested

    pub arrive :
        {u : Sender Packet} {q e r : List Packet} {f : Bool} (g : ℕ → Activity Packet × Call Packet)
        → u.send_queue ≡ q
        → u.is_sending ≡ f
        → u.posting ≡ sum on_way n g
        → ((i : ℕ) → u.tasks i ≡ task (g i))
        → u.enqueued ≡ e
        → u.requested ≡ r
        → List.Reach n u
        → List.Reach n (sender_of q f g e r)
    arrive g hq hf hp ht he hr = subst (List.Reach n) (λ k. record {
      send_queue = hq k;
      is_sending = hf k;
      posting = hp k;
      tasks = λ i. ht i k;
      enqueued = he k;
      requested = hr k;
    })

    module _ {q e r : List Packet} {f : Bool} (g : ℕ → Activity Packet × Call Packet) (i : ℕ)
        (lt : i < n) (at : List.Reach n (sender_of q f g e r)) where
      same_task :
          (x : Activity Packet × Call Packet)
          → task (g i) ≡ task x
          → (j : ℕ) → task (g j) ≡ task (assign g i x j)
      same_task x same j =
          assign-elim (λ y. task (g j) ≡ task y) g i j x (λ z. ap (λ k. task (g k)) (sym z) ∙ same)
            (λ z. refl)

      pub new_task :
          (x : Activity Packet × Call Packet) (t : SendTask Packet)
          → t ≡ task x
          → (j : ℕ) → assign (λ k. task (g k)) i t j ≡ task (assign g i x j)
      new_task x t same j = ground (arith, same)

      pub stutter :
          (x : Activity Packet × Call Packet)
          → task (g i) ≡ task x
          → on_way (g i) ≡ on_way x
          → List.Reach n (sender_of q f (assign g i x) (e ++ []) r)
      stutter x same way =
          arrive (assign g i x) refl refl (omega (arith, sum-assign on_way n g i x lt))
            (same_task x same) (sym (append-nil e)) refl at

      -- A step in which the task changes and the producers do not.
      pub turn :
          (x : Activity Packet × Call Packet) (t : SendTask Packet) {q' r' : List Packet}
          {f' : Bool}
          → t ≡ task x
          → on_way (g i) ≡ on_way x
          → List.Step n (sender_of q f g e r) (
              List.set_task
                (record (sender_of q f g e r) { send_queue = q'; is_sending = f'; requested = r' })
                i
                t)
          → List.Reach n (sender_of q' f' (assign g i x) (e ++ []) r')
      turn x t same way st =
          arrive (assign g i x) refl refl (omega (arith, sum-assign on_way n g i x lt))
            (new_task x t same) (sym (append-nil e)) refl (List.later at st)

      put_lem :
          (d : Packet)
          → g i ≡ (Queued.producing d, putting d)
          → List.Reach n
              (sender_of (q ++ d ∷ []) f (assign g i (Queued.producing d, put)) (e ++ d ∷ []) r)
      put_lem d is =
          arrive (assign g i (Queued.producing d, put)) refl refl
            (omega (arith, sum-assign on_way n g i (Queued.producing d, put) lt, ap on_way is))
            (same_task (Queued.producing d, put) (ap task is)) refl refl
            (List.later at (List.en_q d))

      take_lem :
          (ps : List Packet) (v : Packet) (rest : List Packet)
          → q ≡ v ∷ rest
          → g i ≡ (Queued.draining ps, taking)
          → List.Reach n (sender_of rest f (assign g i (Queued.draining ps, took v)) (e ++ []) r)
      take_lem ps v rest eq is =
          turn (Queued.draining ps, took v) (List.draining (ps ++ v ∷ [])) refl (ap on_way is)
            (List.de_q i ps v rest lt (ap task is) eq)

      -- A step of the queue is one of the list, or none.
      pub Act-Reach :
          {b b' : Activity Packet} {c c' : Call Packet} {q' : List Packet}
          → Uses b c c' b'
          → Act snoc q c q' c'
          → g i ≡ (b, c)
          → IsPaired b c
          → List.Reach n (sender_of q' f (assign g i (b', c')) (e ++ gained c c') r)
      Act-Reach (en_q {p}) begin_put is h =
          stutter (Queued.producing p, putting p) (ap task is) (ap on_way is)
      Act-Reach (en_q_full {p}) full is h =
          stutter (Queued.producing p, crashed) (ap task is) (ap on_way is)
      Act-Reach en_q_end end_put is h =
          stutter (Queued.posting, outside) (ap task is) (ap on_way is)
      Act-Reach (de_q {ps}) begin_take is h =
          stutter (Queued.draining ps, taking) (ap task is) (ap on_way is)
      Act-Reach (de_q_few {ps}) refuse is h =
          turn (Queued.draining ps, refused) (List.drained ps) refl (ap on_way is)
            (List.de_q_none i ps lt (ap task is))
      Act-Reach (de_q_end {ps} {p}) end_take is h =
          stutter (Queued.draining (ps ++ p ∷ []), outside) (ap task is) (ap on_way is)
      Act-Reach (de_q_none {ps}) end_refuse is h =
          stutter (Queued.drained ps, outside) (ap task is) (ap on_way is)
      Act-Reach (inside off off') begin_put is h = absurd (off refl)
      Act-Reach {b} (inside off off') (put_in {d}) is h =
          let eq = paired_putting b d h in
          subst
            (λ a. List.Reach n (sender_of (q ++ d ∷ []) f (assign g i (a, put)) (e ++ d ∷ []) r))
            (sym eq) (put_lem d (is ∙ ap (λ a. (a, putting d)) eq))
      Act-Reach (inside off off') end_put is h = absurd (off' refl)
      Act-Reach (inside off off') begin_take is h = absurd (off refl)
      Act-Reach {b} (inside off off') (take_front {v} {rest} at_front) is h =
          let (ps, eq) = paired_taking b h in
          subst (λ a. List.Reach n (sender_of rest f (assign g i (a, took v)) (e ++ []) r)) (sym eq)
            (take_lem ps v rest at_front (is ∙ ap (λ a. (a, taking)) eq))
      Act-Reach (inside off off') end_take is h = absurd (off' refl)
      Act-Reach (inside off off') refuse is h = absurd (off refl)
      Act-Reach (inside off off') end_refuse is h = absurd (off' refl)
      Act-Reach (inside off off') full is h = absurd (off refl)
      Act-Reach {b} (inside off off') (crash_put {d}) is h =
          let eq = paired_putting b d h in
          subst (λ a. List.Reach n (sender_of q f (assign g i (a, crashed)) (e ++ []) r)) (sym eq)
            (stutter (Queued.producing d, crashed) (ap task is ∙ ap (λ a. task (a, putting d)) eq)
              (ap on_way is ∙ ap (λ a. on_way (a, putting d)) eq))
      Act-Reach {b} (inside off off') crash_take is h =
          let (ps, eq) = paired_taking b h in
          subst (λ a. List.Reach n (sender_of q f (assign g i (a, crashed)) (e ++ []) r)) (sym eq)
            (stutter (Queued.draining ps, crashed) (ap task is ∙ ap (λ a. task (a, taking)) eq)
              (ap on_way is ∙ ap (λ a. on_way (a, taking)) eq))
      Act-Reach {b} {c = c} (inside off off') wait is h =
          subst (λ l. List.Reach n (sender_of q f (assign g i (b, c)) l r))
            (ap (λ l. e ++ l) (sym (gained_same c))) (stutter (b, c) (ap task is) (ap on_way is))
