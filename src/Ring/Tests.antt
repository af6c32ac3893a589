-- ===== src/Ring/Tests.antt =====
-- Runs of the ring, and the theorems at concrete rings.
use mmoserver.Shared.{pos, ◌+◌, ◌≡◌, refl, [], ◌∷◌, ◌==◌, if◌then◌else◌, arith, Memory, ◌≤◌}
use mmoserver.Ring.State.{RingQ, get_free_size, get_used_size, move_write_position}
use mmoserver.Ring.Segments.{get_direct_en_q_data}
use mmoserver.Ring.Sizes.{IsValid}
use mmoserver.Ring.Fifo.{contents, free, Extends}
use mmoserver.Ring.Enqueue.{Enqueued, enqueue-Enqueued}
use mmoserver.Ring.Dequeue.{Dequeued, dequeue-Dequeued}
use mmoserver.Ring.Direct.{place-direct_en_q, Received, receive-Extends}

-- Three bytes, 10, 11 and 12, round the end of the array.
abbrev wrapped : RingQ
wrapped = record {
  read_position = 6997;
  write_position = 0;
  buffer = λ i. if i == 0 then 12 else if i == 6999 then 11 else if i == 6998 then 10 else 0;
}

-- Bytes 20, 21, 22, …
abbrev source : Memory
source i = 20 + i

wrapped-IsValid : IsValid wrapped
wrapped-IsValid = omega arith

contents-wrapped : contents wrapped ≡ 10 ∷ 11 ∷ 12 ∷ []
unfolding get_used_size
contents-wrapped = refl

enqueue-Enqueued_example : Enqueued wrapped source 2
enqueue-Enqueued_example = enqueue-Enqueued wrapped source 2 wrapped-IsValid (omega arith)

dequeue-Dequeued_example : Dequeued wrapped source 2
dequeue-Dequeued_example = dequeue-Dequeued wrapped source 2 wrapped-IsValid (omega arith)

-- The memory after a receive of two bytes into the ring's buffers.
abbrev after_receive : Memory
after_receive i = if i == 1 then 20 else if i == 2 then 21 else wrapped.buffer i

two-Received : Received (get_direct_en_q_data wrapped []) wrapped.buffer after_receive source 2
unfolding get_free_size
two-Received = record {
  filled = λ k i lt e. ground (arith, place-direct_en_q wrapped k wrapped-IsValid);
  others = λ i h. ground (
    arith,
    h 0 (omega arith),
    h 1 (omega arith),
    place-direct_en_q wrapped 0 wrapped-IsValid,
    place-direct_en_q wrapped 1 wrapped-IsValid,
  );
}

two_fit : 2 ≤ free wrapped
unfolding get_free_size
two_fit = ground arith

receive-Extends_example :
    Extends wrapped
      (move_write_position (record wrapped { buffer = after_receive }) (pos 2))
      source
      2
receive-Extends_example =
    receive-Extends wrapped after_receive source 2 wrapped-IsValid two_fit two-Received
