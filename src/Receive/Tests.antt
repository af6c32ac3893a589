-- ===== src/Receive/Tests.antt =====
-- The receiving side at concrete bytes.
use mmoserver.Shared.{
  to_int32, ℕ, ◌-◌, ◌≡◌, ◌==◌, refl, some, true, List, [], ◌∷◌, ◌++◌, map, arith, if◌then◌else◌,
  get_or, ltb, Bool, inl, ◌<◌,
}
use mmoserver.Ring.State.{RingQ, get_used_size, get_read_size}
use mmoserver.Ring.Segments.{get_read_buffer_ptr}
use mmoserver.Cipher.{convert, convert_loop, next_key}
use mmoserver.Ring.Sizes.{IsValid}
use mmoserver.Ring.Fifo.{contents, used}
use mmoserver.Send.Packet.{NetworkPacket, seal, IsSizePrefixed, whole_bytes}
use mmoserver.Receive.Defs.{next_packet, parse_loop, ReceiveTask, running, done, run, read_scalar}
use mmoserver.Receive.Loop.{Returned, run-Returned, TaskIsValid}
use mmoserver.Receive.Stream.{wire, parse-wire, IsStraight}
use mmoserver.Receive.Straddle.{Overrun, straddle-Overrun}

-- A packet with the message "ABC".
abbrev abc : NetworkPacket
abc = record { bytes = λ i. get_or (3 ∷ 0 ∷ 0 ∷ 0 ∷ b'A' ∷ b'B' ∷ b'C' ∷ []) i 0; size = 7 }

abc-IsSizePrefixed : IsSizePrefixed abc
unfolding read_scalar
abc-IsSizePrefixed = record {
  message_size = 3;
  whole = refl;
  header = refl;
  small = omega arith;
  octets = λ k. ground arith;
}

-- The packet as it is sent, and the first two bytes of another.
abbrev arrived : RingQ
arrived = record {
  read_position = 0;
  write_position = 9;
  buffer = λ i. if ltb i 8 then (seal abc).bytes (i - 1) else if i == 8 then 5 else 0;
}

contents-arrived : contents arrived ≡ wire (abc ∷ []) ++ (5 ∷ 0 ∷ [])
unfolding get_used_size seal convert convert_loop next_key
contents-arrived = refl

straight : IsStraight arrived
unfolding get_used_size
straight = ground arith

arrived-IsValid : IsValid arrived
arrived-IsValid = omega arith

few_bytes : used arrived < 7001
unfolding get_used_size
few_bytes = ground arith

parse-wire_example :
    (last : RingQ) × (parse_loop 7001 arrived ≡ some (last, map whole_bytes (abc ∷ [])))
    × (contents last ≡ 5 ∷ 0 ∷ [])
    × IsValid last
parse-wire_example =
    parse-wire (abc ∷ []) 7001 arrived (5 ∷ 0 ∷ []) arrived-IsValid straight
      (abc-IsSizePrefixed, tt) (inl (omega arith)) contents-arrived few_bytes

abbrev waiting_task : ReceiveTask
waiting_task = record {
  owner = some (record { session_id = 1; recv_ring_queue = arrived });
  step = running;
}

task-IsValid : TaskIsValid waiting_task
task-IsValid s e = ground (arith, arrived-IsValid)

-- A verifier that accepts every packet.
abbrev accept : List ℕ → Bool
accept l = true

abbrev as_it_is : List ℕ → List ℕ
as_it_is l = l

run-Returned_example : Returned accept as_it_is (run accept as_it_is done true 5 waiting_task)
run-Returned_example = run-Returned accept as_it_is done true 5 waiting_task task-IsValid

-- A packet with eight bytes of message that begins six bytes before the end of the array.
abbrev straddling : RingQ
straddling = record {
  read_position = 6993;
  write_position = 5;
  buffer = λ i. if i == 6994 then 8 else 0;
}

straddling_next : next_packet straddling ≡ some (6994, 8)
unfolding next_packet read_scalar to_int32 get_read_size get_read_buffer_ptr
straddling_next = ground arith

straddle-Overrun_example : Overrun straddling 6994 8
straddle-Overrun_example =
    straddle-Overrun straddling 6994 8 straddling_next (λ i. ground arith) (omega arith)
      (omega arith)
