-- ===== src/EndToEnd/Tests.antt =====
-- A packet that is sent and received.
use mmoserver.Shared.{◌≤◌, [], ◌∷◌, ◌≡◌, ◌<◌, ◌-◌, ltb, refl, arith, if◌then◌else◌, ◌==◌}
use mmoserver.Families.{sum}
use mmoserver.Send.Packet.{seal, NetworkPacket, IsSizePrefixed}
use mmoserver.Calls.{putting, put, taking, took}
use mmoserver.LockFreeQ.System.{
  reserve, read_front_ptr, read_front_id, next_node, read_data, deq_win, deq_return, fall_short,
  restore, alloc, fill, new_tag, stamp, read_rear_ptr, read_rear_id, cas1_win, read_own, cas2_win,
  count,
}
use mmoserver.Send.Queued.{
  Activity, Uses, begin, wsa_send, draining, drained, de_q, de_q_few, de_q_end, de_q_none, Session,
  Reach, start, later, send, worker_push, use_queue, producing, posting, en_q, en_q_end, inside,
}
use mmoserver.Receive.Defs.{read_scalar}
use mmoserver.Ring.State.{RingQ, get_used_size}
use mmoserver.Ring.Fifo.{used, contents}
use mmoserver.Cipher.{convert, convert_loop, next_key}
use mmoserver.Receive.Stream.{IsStraight, wire}
use mmoserver.EndToEnd.{Delivered, delivered_lem}

abbrev abc : NetworkPacket
abc = record {
  bytes = λ i.
      if i == 0 then 3 else if i == 4 then 97 else if i == 5 then 98 else if i == 6 then 99 else 0;
  size = 7;
}

abc-IsSizePrefixed : IsSizePrefixed abc
unfolding read_scalar
abc-IsSizePrefixed = record {
  message_size = 3;
  whole = refl;
  header = refl;
  small = omega arith;
  octets = λ k. ground arith;
}

-- Steps inside EnQ and DeQ.
module _ {a : Activity NetworkPacket} where
  still_put : Uses a put put a
  still_put = inside (ground arith) (ground arith)

  still_taking : Uses a taking taking a
  still_taking = inside (ground arith) (ground arith)

  module _ {p : NetworkPacket} where
    still_putting : Uses a (putting p) (putting p) a
    still_putting = inside (ground arith) (ground arith)

    has_put : Uses a (putting p) put a
    has_put = inside (ground arith) (ground arith)

    has_taken : Uses a taking (took p) a
    has_taken = inside (ground arith) (ground arith)

-- A call of Send, up to WorkerPush.
abbrev queued : (s : Session NetworkPacket) × Reach abc 100 2 s
unfolding sum
queued = (
  _,
  later
      (later
        (later
          (later
            (later
              (later
                (later
                  (later
                    (later
                      (later
                        (later (later start (send 0 abc (omega arith) refl)) (
                          use_queue 0 (producing abc) (omega arith) refl
                            (alloc {d = abc} 1 (omega arith) refl) en_q))
                        (use_queue 0 (producing abc) (omega arith) refl fill still_putting))
                      (use_queue 0 (producing abc) (omega arith) refl new_tag still_putting))
                    (use_queue 0 (producing abc) (omega arith) refl stamp still_putting))
                  (use_queue 0 (producing abc) (omega arith) refl read_rear_ptr still_putting))
                (use_queue 0 (producing abc) (omega arith) refl read_rear_id still_putting))
              (use_queue 0 (producing abc) (omega arith) refl (cas1_win refl) has_put))
            (use_queue 0 (producing abc) (omega arith) refl read_own still_put))
          (use_queue 0 (producing abc) (omega arith) refl (cas2_win refl refl) still_put))
        (use_queue 0 posting (omega arith) refl count en_q_end))
      (worker_push 0 (omega arith) refl),
)

too_few : 1 < 2
too_few = omega arith

enough : 1 ≤ 1
enough = omega arith

-- The task that it makes, up to WSASend.
abbrev sent : (s : Session NetworkPacket) × Reach abc 100 2 s
unfolding sum
sent = (
  _,
  (later
      (later
        (later
          (later
            (later
              (later
                (later
                  (later
                    (later
                      (later (later queued.1 (begin 0 (omega arith) refl refl))
                        (use_queue 0 (draining []) (omega arith) refl (reserve enough) (de_q)))
                      (use_queue 0 (draining []) (omega arith) refl read_front_ptr still_taking))
                    (use_queue 0 (draining []) (omega arith) refl read_front_id still_taking))
                  (use_queue 0 (draining []) (omega arith) refl (next_node refl) still_taking))
                (use_queue 0 (draining []) (omega arith) refl read_data still_taking))
              (use_queue 0 (draining []) (omega arith) refl (deq_win refl refl) has_taken))
            (use_queue 0 (draining (abc ∷ [])) (omega arith) refl deq_return (de_q_end)))
          (use_queue 0 (draining (abc ∷ [])) (omega arith) refl (fall_short too_few) (de_q_few)))
        (use_queue 0 (drained (abc ∷ [])) (omega arith) refl restore (de_q_none)))
      (wsa_send 0 abc [] (omega arith) refl)),
)

-- The ring of the receiver with the bytes.
abbrev arrived : RingQ
arrived = record {
  read_position = 0;
  write_position = 7;
  buffer = λ i. if ltb i 8 then (seal abc).bytes (i - 1) else 0;
}

contents-arrived : contents arrived ≡ wire (abc ∷ [])
unfolding get_used_size seal convert convert_loop next_key
contents-arrived = refl

straight : IsStraight arrived
unfolding get_used_size
straight = ground arith

few_bytes : used arrived < 7001
unfolding get_used_size
few_bytes = ground arith

delivered_lem_example : Delivered (abc ∷ []) 7001 arrived
unfolding sent get_used_size
delivered_lem_example =
    delivered_lem sent.1 (abc-IsSizePrefixed, tt) 7001 arrived [] (omega arith) straight
      contents-arrived few_bytes
