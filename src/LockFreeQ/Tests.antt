-- ===== src/LockFreeQ/Tests.antt =====
-- An item that thread 0 puts in, and thread 1 about to take it out.
use mmoserver.Shared.{ℕ, ◌≡◌, some, [], ◌∷◌, arith, refl, List, ◌<◌}
use mmoserver.Families.{assign, sum}
use mmoserver.LockFreeQ.Defs.{
  Memory, null, tag, node, Phase, idle, enq_fill, enq_tag, enq_stamp, enq_ptr, enq_id, enq_cas1,
  enq_linked, enq_cas2, enq_count, deq_ptr, deq_id, deq_next, deq_data, deq_cas,
}
use mmoserver.LockFreeQ.System.{
  System, init, Reach, start, later, step, alloc, fill, new_tag, stamp, read_rear_ptr, read_rear_id,
  cas1_win, read_own, cas2_win, count, reserve, read_front_ptr, read_front_id, next_node, read_data,
  set_rear,
}
use mmoserver.LockFreeQ.Quiet.{destroy, destroy_lem}
use mmoserver.LockFreeQ.Atomic.{view, Step-AtomicStep}
use mmoserver.Calls.{AtomicStep, snoc}
use mmoserver.LockFreeQ.Defs.{deq_free}
use mmoserver.LockFreeQ.System.{deq_win}
use mmoserver.LockFreeQ.Fifo.{IsFifo, Reach-IsFifo, dequeue_ready}

abbrev go : System ℕ → Memory ℕ → ℕ → Phase ℕ → System ℕ
go s m i p = record { memory = m; phase = assign s.phase i p }

abbrev stay : System ℕ → ℕ → Phase ℕ → System ℕ
stay s i p = go s s.memory i p

abbrev empty : System ℕ
empty = init 0 100 2

abbrev with_node : System ℕ
with_node =
    go empty
      (record (empty.memory) {
        next = assign empty.memory.next 1 null;
        content = assign empty.memory.content 1 0;
      })
      0 (enq_fill 7 1)

abbrev filled : System ℕ
filled =
    go with_node (record (with_node.memory) { content = assign with_node.memory.content 1 7 }) 0
      (enq_tag 7 1)

abbrev tagged : System ℕ
tagged = go filled (record (filled.memory) { rear_id = 1 }) 0 (enq_stamp 7 1 1)

abbrev stamped : System ℕ
stamped =
    go tagged (record (tagged.memory) { next = assign tagged.memory.next 1 (tag 1) }) 0
      (enq_ptr 7 1 1)

abbrev at_rear : System ℕ
at_rear = stay (stay stamped 0 (enq_id 7 1 1 0)) 0 (enq_cas1 7 1 1 0 (tag 0))

abbrev linked : System ℕ
linked =
    go at_rear
      (record (at_rear.memory) {
        next = assign at_rear.memory.next 0 (node 1);
        extra = some 1;
        enqueued = 7 ∷ [];
      })
      0 (enq_linked 1 0 (tag 0))

abbrev moved : System ℕ
moved =
    go (stay linked 0 (enq_cas2 1 0 (tag 0) (tag 1))) (set_rear linked.memory 1 (tag 1)) 0 enq_count

abbrev counted : System ℕ
counted = go moved (record (moved.memory) { added = 1 }) 0 idle

abbrev in_dequeue : System ℕ
in_dequeue = go counted (record (counted.memory) { removed = 1 }) 1 deq_ptr

abbrev at_front : System ℕ
at_front =
    stay (stay (stay (stay in_dequeue 1 (deq_id 0)) 1 (deq_next 0 0)) 1 (deq_data 0 0 1)) 1
      (deq_cas 0 0 1 7)

to_linked : Reach 0 100 2 linked
unfolding sum
to_linked =
    later
      (later
        (later
          (later
            (later
              (later (later start (step 0 (omega arith) refl (alloc 1 (omega arith) refl)))
                (step 0 (omega arith) refl fill))
              (step 0 (omega arith) refl new_tag))
            (step 0 (omega arith) refl stamp))
          (step 0 (omega arith) refl read_rear_ptr))
        (step 0 (omega arith) refl read_rear_id))
      (step 0 (omega arith) refl (cas1_win refl))

to_counted : Reach 0 100 2 counted
to_counted =
    later
      (later (later to_linked (step 0 (omega arith) refl read_own))
        (step 0 (omega arith) refl (cas2_win refl refl)))
      (step 0 (omega arith) refl count)

to_front : Reach 0 100 2 at_front
to_front =
    later
      (later
        (later
          (later (later to_counted (step 1 (omega arith) refl (reserve (omega arith))))
            (step 1 (omega arith) refl read_front_ptr))
          (step 1 (omega arith) refl read_front_id))
        (step 1 (omega arith) refl (next_node refl)))
      (step 1 (omega arith) refl read_data)

Reach-IsFifo_example : IsFifo 2 at_front
Reach-IsFifo_example = Reach-IsFifo to_front

dequeue_ready_example :
    (q : ℕ) × (l : List ℕ) × (at_front.memory.nodes ≡ q ∷ l)
    × (at_front.memory.next at_front.memory.front_ptr ≡ node q)
    × ((t v : ℕ)
        → at_front.phase 1 ≡ deq_cas at_front.memory.front_ptr at_front.memory.front_id t v
        → (t ≡ q) × (v ≡ at_front.memory.content q))
dequeue_ready_example = dequeue_ready to_front 1 (omega arith) refl

nobody_inside : (i : ℕ) → i < 2 → counted.phase i ≡ idle
nobody_inside i lt = ground arith

destroy_lem_example : destroy 9 counted.memory.next (node 0) ≡ some (0 ∷ 1 ∷ [])
destroy_lem_example = destroy_lem to_counted nobody_inside 9 (omega arith)

abbrev taken : System ℕ
taken =
    go at_front
      (record (at_front.memory) { front_ptr = 1; front_id = 1; nodes = []; dequeued = 7 ∷ [] }) 1
      (deq_free 0 7)

Step-AtomicStep_example : AtomicStep snoc 2 (view at_front) (view taken)
Step-AtomicStep_example = Step-AtomicStep to_front (step 1 (omega arith) refl (deq_win refl refl))
