-- ===== src/Send/Tests.antt =====
-- A send, and the theorems on it.
use mmoserver.Shared.{ℕ, refl, [], ◌∷◌, arith, true}
use mmoserver.Families.{sum}
use mmoserver.Send.System.{
  posted, draining, drained, in_flight, Sender, set_task, en_q, worker_push, begin, de_q, de_q_none,
  wsa_send, init, Reach, start, later,
}
use mmoserver.Send.Order.{IsSerial, Reach-IsSerial}
use mmoserver.Send.Queued as Queued
use mmoserver.Send.Queued.{
  Session, Activity, producing, set_activity, send, use_queue, en_q, inside,
}
use mmoserver.Send.Composed.{Refines, Reach-Refines}
use mmoserver.LockFreeQ.Defs.{
  Memory, Phase, null, tag, node, enq_fill, enq_tag, enq_stamp, enq_ptr, enq_id, enq_cas1,
  enq_linked,
}
use mmoserver.LockFreeQ.System.{alloc, fill, new_tag, stamp, read_rear_ptr, read_rear_id, cas1_win}
use mmoserver.Families.{assign}
use mmoserver.Shared.{some}
use mmoserver.Send.Unsent.{Forgets, forget}

abbrev was_posted : Sender ℕ
was_posted = set_task (record init { send_queue = 5 ∷ []; enqueued = 5 ∷ [] }) 0 posted

abbrev was_taken : Sender ℕ
was_taken =
    set_task
      (record (set_task (record was_posted { is_sending = true }) 0 (draining [])) {
        send_queue = [];
      })
      0 (draining (5 ∷ []))

abbrev was_sent : Sender ℕ
was_sent =
    set_task (record (set_task was_taken 0 (drained (5 ∷ []))) { requested = 5 ∷ [] }) 0
      (in_flight (5 ∷ []))

to_taken : Reach 2 was_taken
to_taken =
    later
      (later (later (later start (en_q 5)) (worker_push 0 (omega arith) refl (omega arith)))
        (begin 0 (omega arith) refl refl))
      (de_q 0 [] 5 [] (omega arith) refl refl)

to_sent : Reach 2 was_sent
to_sent =
    later (later to_taken (de_q_none 0 (5 ∷ []) (omega arith) refl))
      (wsa_send 0 5 [] (omega arith) refl)

Reach-IsSerial_example : IsSerial 2 was_taken
Reach-IsSerial_example = Reach-IsSerial to_taken

forget_example : (t : Sender ℕ) × Forgets 2 was_sent 6 t
unfolding sum
forget_example = forget to_sent 0 1 (5 ∷ []) 6 (omega arith) (omega arith) refl refl refl refl refl

abbrev in_queue : Session ℕ → ℕ → Memory ℕ → Phase ℕ → Activity ℕ → Session ℕ
in_queue s i m p a =
    set_activity (record s { queue = record { memory = m; phase = assign s.queue.phase i p } }) i a

abbrev calling : Session ℕ
calling = set_activity (Queued.init 0 100 2) 0 (producing 5)

abbrev with_node : Session ℕ
with_node =
    in_queue calling 0
      (record (calling.queue.memory) {
        next = assign calling.queue.memory.next 1 null;
        content = assign calling.queue.memory.content 1 0;
      })
      (enq_fill 5 1) (producing 5)

abbrev filled : Session ℕ
filled =
    in_queue with_node 0
      (record (with_node.queue.memory) { content = assign with_node.queue.memory.content 1 5 })
      (enq_tag 5 1) (producing 5)

abbrev tagged : Session ℕ
tagged =
    in_queue filled 0 (record (filled.queue.memory) { rear_id = 1 }) (enq_stamp 5 1 1) (producing 5)

abbrev stamped : Session ℕ
stamped =
    in_queue tagged 0
      (record (tagged.queue.memory) { next = assign tagged.queue.memory.next 1 (tag 1) })
      (enq_ptr 5 1 1) (producing 5)

abbrev seen_rear : Session ℕ
seen_rear = in_queue stamped 0 stamped.queue.memory (enq_id 5 1 1 0) (producing 5)

abbrev at_rear : Session ℕ
at_rear = in_queue seen_rear 0 seen_rear.queue.memory (enq_cas1 5 1 1 0 (tag 0)) (producing 5)

abbrev linked : Session ℕ
linked =
    in_queue at_rear 0
      (record (at_rear.queue.memory) {
        next = assign at_rear.queue.memory.next 0 (node 1);
        extra = some 1;
        enqueued = 5 ∷ [];
      })
      (enq_linked 1 0 (tag 0)) (producing 5)

to_stamped : Queued.Reach 0 100 2 stamped
unfolding sum
to_stamped =
    Queued.later
      (Queued.later
        (Queued.later
          (Queued.later (Queued.later Queued.start (send 0 5 (omega arith) refl))
            (use_queue 0 (producing 5) (omega arith) refl (alloc 1 (omega arith) refl) en_q))
          (use_queue 0 (producing 5) (omega arith) refl fill
            (inside (ground arith) (ground arith))))
        (use_queue 0 (producing 5) (omega arith) refl new_tag
          (inside (ground arith) (ground arith))))
      (use_queue 0 (producing 5) (omega arith) refl stamp (inside (ground arith) (ground arith)))

to_linked : Queued.Reach 0 100 2 linked
to_linked =
    Queued.later
      (Queued.later
        (Queued.later to_stamped (
          use_queue 0 (producing 5) (omega arith) refl read_rear_ptr
            (inside (ground arith) (ground arith))))
        (use_queue 0 (producing 5) (omega arith) refl read_rear_id
          (inside (ground arith) (ground arith))))
      (use_queue 0 (producing 5) (omega arith) refl (cas1_win refl)
        (inside (ground arith) (ground arith)))

Reach-Refines_example : Refines 0 100 2 linked
Reach-Refines_example = Reach-Refines to_linked
