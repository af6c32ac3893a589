-- ===== src/Send/Composed.antt =====
-- A session that sends over its LockFreeQ (ServerCore/Network/NetworkSession.h,
-- ServerCore/Network/NetworkTask.cpp, ServerCore/Memory/LockFreeQ.h).
use mmoserver.LockFreeQ.System.{Move, uses}
use mmoserver.Shared.{
  ℕ, ◌<◌, ◌≡◌, Bool, true, List, [], ◌∷◌, ◌++◌, refl, arith, subst, sym, ap, fun_ext, append-nil,
  ◌∙◌, false, if◌then◌else◌, ◌==◌,
}
use mmoserver.Families.{assign, assign-elim, sum-assign, sum-eq-zero}
use mmoserver.LockFreeQ.Atomic.{call, items, Move-Act, Move-gained}
use mmoserver.Calls.{Call, outside}
use mmoserver.LockFreeQ.Defs.{Memory, Phase}
use mmoserver.LockFreeQ.Local.{IsCurrent}
use mmoserver.LockFreeQ.Fifo.{Reach-Inv}
use mmoserver.LockFreeQ.System as Queue
use mmoserver.Send.Order.{in_hand, Reach-IsSerial}
use mmoserver.Send.System.{SendTask}
use mmoserver.Send.System as List
use mmoserver.Send.Queued.{
  Activity, Session, Step, Reach, send, worker_push, use_queue, begin_other, begin, nothing,
  wsa_send, wsa_refused, complete, start, later, Uses,
}
use mmoserver.Send.Queued as Queued
use mmoserver.Send.Refine.{
  task, on_way, IsPaired, Uses-IsPaired, sender_of, sender, stutter, turn, arrive, new_task,
  Act-Reach,
}

if_pair :
    {X Y Z : Type 0} (f : Y → Z) (x x' : X) (y y' : Y) (b : Bool)
    → ◌≡◌ {A = X × Z}
        (if b then (x, f y) else (x', f y'))
        (if b then x else x', f (if b then y else y'))
if_pair f x x' y y' true = refl
if_pair f x x' y y' false = refl

module _ {Packet : Type 0} where
  -- An activity that is not in Send or Start.
  abbrev rests : Activity Packet → Bool
  rests (Queued.producing p) = false
  rests (Queued.draining ps) = false
  rests a = true

  paired_outside :
      (a : Activity Packet) (c : Call Packet) → rests a ≡ true → IsPaired a c → c ≡ outside
  paired_outside a outside h p = refl
  paired_outside (Queued.producing q) c h p = absurd (ground arith)
  paired_outside (Queued.draining ps) c h p = absurd (ground arith)
  paired_outside a c h p = elim p [ ]

  abbrev pairs : Session Packet → ℕ → Activity Packet × Call Packet
  pairs s = λ j. (s.activities j, call (s.queue.phase j))

  both-IsPaired :
      (a a' : Activity Packet) (p p' : Phase Packet) (b : Bool)
      → IsPaired a (call p)
      → IsPaired a' (call p')
      → IsPaired (if b then a else a') (call (if b then p else p'))
  both-IsPaired a a' p p' true h h' = h
  both-IsPaired a a' p p' false h h' = h'

  pub record Refines (blank : Packet) (max_count n : ℕ) (s : Session Packet) : Type 0 where
    pub queue : Queue.Reach blank max_count n s.queue
    pub paired : (j : ℕ) → IsPaired (s.activities j) (call (s.queue.phase j))
    pub sent : List.Reach n (sender n s)

  module _ {blank : Packet} {max_count n : ℕ} {s : Session Packet}
      (now : Refines blank max_count n s) (i : ℕ) (lt : i < n) (a : Activity Packet)
      (is : s.activities i ≡ a) (rest : rests a ≡ true) (a' : Activity Packet) where
    at_rest : call (s.queue.phase i) ≡ outside
    at_rest =
        paired_outside a (call (s.queue.phase i)) rest
          (subst (λ b. IsPaired b (call (s.queue.phase i))) is (now.paired i))

    pair_at : ◌≡◌ {A = Activity Packet × Call Packet} (pairs s i) (a, outside)
    pair_at = λ k. (is k, at_rest k)

    pair_assign :
        (j : ℕ)
        → assign (pairs s) i (a', outside) j ≡ (assign s.activities i a' j, call (s.queue.phase j))
    pair_assign j =
        if_pair (λ c. c) a' (s.activities j) outside (call (s.queue.phase j)) (i == j)
        ∙ ap (λ c. (assign s.activities i a' j, c))
            (assign-elim (λ c. c ≡ call (s.queue.phase j)) (λ k. call (s.queue.phase k)) i j outside
              (λ z. sym at_rest ∙ ap (λ k. call (s.queue.phase k)) z) (λ z. refl))

    now-IsPaired :
        IsPaired a' outside
        → (j : ℕ) → IsPaired (assign s.activities i a' j) (call (s.queue.phase j))
    now-IsPaired ok j =
        assign-elim (λ b. IsPaired b (call (s.queue.phase j))) s.activities i j a'
          (λ z. subst (IsPaired a') (sym at_rest ∙ ap (λ k. call (s.queue.phase k)) z) ok)
          (λ z. now.paired j)

    go_on :
        {f : Bool} {r : List Packet}
        → IsPaired a' outside
        → List.Reach n (
            sender_of n
              (items s.queue.memory)
              f
              (assign (pairs s) i (a', outside))
              (s.queue.memory.enqueued ++ [])
              r)
        → Refines blank max_count n
            (record s { is_sending = f; requested = r; activities = assign s.activities i a' })
    go_on {f} {r} ok at = record {
      queue = now.queue;
      paired = now-IsPaired ok;
      sent =
          subst
            (λ e. List.Reach n (
              sender_of n (items s.queue.memory) f
                (λ j. (assign s.activities i a' j, call (s.queue.phase j))) e r))
            (append-nil s.queue.memory.enqueued)
            (subst
              (λ g.
                List.Reach n
                  (sender_of n (items s.queue.memory) f g (s.queue.memory.enqueued ++ []) r))
              (fun_ext pair_assign) at);
    }

  module _ {blank : Packet} {max_count n : ℕ} where
    queue_step :
        {s : Session Packet} (now : Refines blank max_count n s) {p p' : Phase Packet}
        {m : Memory Packet} (i : ℕ) (a : Activity Packet)
        → i < n
        → s.queue.phase i ≡ p
        → Move blank max_count
            (λ x. uses x n s.queue.memory s.queue.phase ≡ 0)
            s.queue.memory
            p
            m
            p'
        → Uses (s.activities i) (call p) (call p') a
        → Refines blank max_count n (
            Queued.set_activity
              (record s { queue = record { memory = m; phase = assign s.queue.phase i p' } })
              i
              a)
    queue_step {s} now {p} {p'} {m} i a lt e mv u =
        let inv = Reach-Inv blank max_count n now.queue in
        let act = Move-Act inv i lt mv e (subst (IsCurrent s.queue.memory) e (inv.current i lt)) in
        let paired = subst (λ q. IsPaired (s.activities i) (call q)) e (now.paired i) in
        record {
          queue = Queue.later now.queue (Queue.step i lt e mv);
          paired = λ j.
              both-IsPaired a (s.activities j) p' (s.queue.phase j) (i == j)
                (Uses-IsPaired u act paired) (now.paired j);
          sent =
              subst
                (λ g. List.Reach n (sender_of n (items m) s.is_sending g m.enqueued s.requested))
                (fun_ext (λ j. if_pair call a (s.activities j) p' (s.queue.phase j) (i == j)))
                (subst
                  (λ l. List.Reach n (
                    sender_of n (items m) s.is_sending (assign (pairs s) i (a, call p')) l
                      s.requested))
                  (sym (Move-gained mv))
                  (Act-Reach n (pairs s) i lt now.sent u act (λ k. (s.activities i, call (e k)))
                    paired));
        }

    Step-Refines :
        {s t : Session Packet}
        → Step blank max_count n s t
        → Refines blank max_count n s
        → Refines blank max_count n t
    Step-Refines {s} (send i p lt is) now =
        let at = pair_at now i lt Queued.absent is refl (Queued.producing p) in
        go_on now i lt Queued.absent is refl (Queued.producing p) tt (
          stutter n (pairs s) i lt now.sent (Queued.producing p, outside) (ap task at)
            (ap on_way at))
    Step-Refines {s} (worker_push i lt is) now =
        let at = pair_at now i lt Queued.posting is refl Queued.posted in
        let way = sum-assign on_way n (pairs s) i (Queued.posted, outside) lt in
        let one = ap on_way at in
        go_on now i lt Queued.posting is refl Queued.posted tt (
          arrive n (assign (pairs s) i (Queued.posted, outside)) refl refl (omega (arith, way, one))
            (new_task n (pairs s) i lt now.sent (Queued.posted, outside) List.posted refl)
            (sym (append-nil s.queue.memory.enqueued)) refl
            (List.later now.sent (List.worker_push i lt (ap task at) (omega (arith, way, one)))))
    Step-Refines {s} (use_queue i a lt e mv u) now = queue_step now i a lt e mv u
    Step-Refines {s} (begin_other i lt is on) now =
        let at = pair_at now i lt Queued.posted is refl Queued.deleted in
        go_on now i lt Queued.posted is refl Queued.deleted tt (
          turn n (pairs s) i lt now.sent (Queued.deleted, outside) List.deleted refl (ap on_way at)
            (List.begin_other i lt (ap task at) on))
    Step-Refines {s} (begin i lt is off) now =
        let at = pair_at now i lt Queued.posted is refl (Queued.draining []) in
        go_on now i lt Queued.posted is refl (Queued.draining []) tt (
          turn n (pairs s) i lt now.sent (Queued.draining [], outside) (List.draining []) refl
            (ap on_way at) (List.begin i lt (ap task at) off))
    Step-Refines {s} (nothing i lt is) now =
        let at = pair_at now i lt (Queued.drained []) is refl Queued.deleted in
        go_on now i lt (Queued.drained []) is refl Queued.deleted tt (
          turn n (pairs s) i lt now.sent (Queued.deleted, outside) List.deleted refl (ap on_way at)
            (List.nothing i lt (ap task at)))
    Step-Refines {s} (wsa_send i p ps lt is) now =
        let at = pair_at now i lt (Queued.drained (p ∷ ps)) is refl (Queued.in_flight (p ∷ ps)) in
        go_on now i lt (Queued.drained (p ∷ ps)) is refl (Queued.in_flight (p ∷ ps)) tt (
          turn n (pairs s) i lt now.sent (Queued.in_flight (p ∷ ps), outside)
            (List.in_flight (p ∷ ps)) refl (ap on_way at) (List.wsa_send i p ps lt (ap task at)))
    Step-Refines {s} (wsa_refused i p ps lt is) now =
        let at = pair_at now i lt (Queued.drained (p ∷ ps)) is refl Queued.deleted in
        go_on now i lt (Queued.drained (p ∷ ps)) is refl Queued.deleted tt (
          turn n (pairs s) i lt now.sent (Queued.deleted, outside) List.deleted refl (ap on_way at)
            (List.wsa_refused i p ps lt (ap task at)))
    Step-Refines {s} (complete i ps lt is) now =
        let at = pair_at now i lt (Queued.in_flight ps) is refl Queued.deleted in
        go_on now i lt (Queued.in_flight ps) is refl Queued.deleted tt (
          turn n (pairs s) i lt now.sent (Queued.deleted, outside) List.deleted refl (ap on_way at)
            (List.complete i ps lt (ap task at)))

    -- In every reachable state of the calls of Send and their tasks over a LockFreeQ, the queue is in a
    -- state that threads in EnQ and DeQ alone reach; an activity is in EnQ only in Send, and in DeQ only
    -- in Start; and the session with the list of the items in the nodes in place of its queue, the
    -- packets put in by successful exchanges, and each packet that DeQ is about to return counted as
    -- taken, is one that the session over a list reaches.
    pub Reach-Refines :
        {s : Session Packet} → Reach blank max_count n s → Refines blank max_count n s
    Reach-Refines start = record {
      queue = Queue.start;
      paired = λ j. tt;
      sent =
          arrive n (λ j. (Queued.absent, outside)) refl refl
            (sym (sum-eq-zero on_way n (λ j. (Queued.absent, outside)) (λ j. refl))) (λ j. refl)
            refl refl List.start;
    }
    Reach-Refines (later r st) = Step-Refines st (Reach-Refines r)

    -- The packets that successful exchanges of EnQ put in are those that WSASend was called with, then
    -- those that the one sending task has taken, then those in the nodes of the queue.
    pub sent_in_order :
        {s : Session Packet}
        → Reach blank max_count n s
        → s.queue.memory.enqueued
          ≡ s.requested ++ (in_hand n (sender n s).tasks ++ items s.queue.memory)
    sent_in_order r = (Reach-IsSerial ((Reach-Refines r).sent)).ordered
