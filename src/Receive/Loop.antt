-- ===== src/Receive/Loop.antt =====
-- The parsing loop and the calls of NetworkTaskReceiveIO (ServerCore/Network/NetworkTask.cpp), run to
-- their end.
use mmoserver.Shared.{
  pos, ℕ, zero, suc, ◌<◌, ◌≡◌, refl, Bool, false, Option, none, some, List, [], ◌∷◌, arith,
  Option-cases, inl, inr, ◌==◌, if-elim,
}
use mmoserver.Ring.State.{RingQ, move_write_position}
use mmoserver.Ring.Sizes.{IsValid, used_lem, move-IsValid}
use mmoserver.Ring.Fifo.{used}
use mmoserver.Receive.Defs.{
  next_packet, take_packet, packet_bytes, parse_loop, EStep, not_started, running, IoResult, Effect,
  Session, ReceiveTask, start, received, complete, run, remove_session, switch_step, success_send,
  success_connect, failed,
}
use mmoserver.Receive.Step.{next_packet-fits, take_packet-IsValid, used-take_packet}

-- The loop has ended by its own test: no complete packet is left in the ring.
pub record Parsed (fuel : ℕ) (r : RingQ) : Type 0 where
  pub ring : RingQ
  pub packets : List (List ℕ)
  pub returns : parse_loop fuel r ≡ some (ring, packets)
  pub valid : IsValid ring
  pub ended : next_packet ring ≡ none

pub parse_loop-Parsed : (fuel : ℕ) (r : RingQ) → IsValid r → used r < fuel → Parsed fuel r
unfolding parse_loop
parse_loop-Parsed zero r v h = absurd (omega arith)
parse_loop-Parsed (suc fuel) r v h = elim (Option-cases (next_packet r)) [
  | inl e ↦ record { ring = r; packets = []; returns = rw (e, parse_loop); valid = v; ended = e }
  | inr ((p, n), e) ↦
      let (here, fits) = next_packet-fits r e in
      let rest : Parsed fuel (take_packet r p n) =
        parse_loop-Parsed fuel (take_packet r p n) (take_packet-IsValid r p n v fits)
          (omega (arith, used-take_packet r p n v fits)) in
      record {
        ring = rest.ring;
        packets = packet_bytes (take_packet r p n) p n ∷ rest.packets;
        returns = rw (e, parse_loop, rest.returns);
        valid = rest.valid;
        ended = rest.ended;
      }
]

switch_step-elim {ℓ κ} :
    {A : Type ℓ} (P : A → Type κ) (s : EStep) {a b c : A}
    → P a
    → P b
    → P c
    → P (switch_step s a b c)
switch_step-elim P not_started pa pb pc = pa
switch_step-elim P running pa pb pc = pb
switch_step-elim P success_send pa pb pc = pc
switch_step-elim P success_connect pa pb pc = pc
switch_step-elim P failed pa pb pc = pc

-- A task without an owner, or whose owner's ring has both positions in the array.
abbrev pub TaskIsValid : ReceiveTask → Type 0
TaskIsValid t = (s : Session) → t.owner ≡ some s → IsValid s.recv_ring_queue

module _ {Message : Type 0} (verify : List ℕ → Bool) (unpack : List ℕ → Message) where
  -- What a call of the task's `Run` returns, and the task that it leaves.
  pub record Returned (out : Option (Bool × ReceiveTask × List (Effect Message))) : Type 0 where
    pub kept : Bool
    pub task : ReceiveTask
    pub effects : List (Effect Message)
    pub returns : out ≡ some (kept, task, effects)
    pub valid : TaskIsValid task

  start_task-IsValid :
      (io : IoResult) (t : ReceiveTask) → TaskIsValid t → TaskIsValid (start verify unpack io t).1
  unfolding start
  start_task-IsValid io t v s e = ground (arith, v s)

  start-Returned :
      (io : IoResult) (t : ReceiveTask) → TaskIsValid t → Returned (some (start verify unpack io t))
  start-Returned io t v = record {
    kept = (start verify unpack io t).0;
    task = (start verify unpack io t).1;
    effects = (start verify unpack io t).2;
    returns = refl;
    valid = start_task-IsValid io t v;
  }

  received-Returned :
      (io : IoResult) (s : Session) (transferred : ℕ)
      → IsValid s.recv_ring_queue
      → Returned (received verify unpack io s transferred)
  unfolding received
  received-Returned io s transferred v =
      let moved : RingQ = move_write_position s.recv_ring_queue (pos transferred) in
      let parsed : Parsed 7001 moved =
        parse_loop-Parsed 7001 moved (move-IsValid (pos transferred) v).0 moved_used in
      rw (parsed.returns, received)
        (record {
          kept = _;
          task = _;
          effects = _;
          returns = refl;
          valid =
              start_task-IsValid io
                (record {
                  owner = some (record s { recv_ring_queue = parsed.ring });
                  step = running;
                })
                (λ s' e. ground (arith, parsed.valid));
        })
    where
      moved_used : used (move_write_position s.recv_ring_queue (pos transferred)) < 7001
      moved_used =
          let v' : IsValid (move_write_position s.recv_ring_queue (pos transferred)) =
            (move-IsValid (pos transferred) v).0 in
          omega (arith, used_lem _ _ v'.read_in v'.write_in)

  unchanged : (t : ReceiveTask) → TaskIsValid t → Returned (some (false, t, []))
  unchanged t v = record { kept = false; task = t; effects = []; returns = refl; valid = v }

  complete-Returned :
      (io : IoResult) (result : Bool) (transferred : ℕ) (t : ReceiveTask)
      → TaskIsValid t
      → Returned (complete verify unpack io result transferred t)
  unfolding complete
  complete-Returned io result transferred t v = elim (Option-cases t.owner) [
    | inl e ↦ rw (e, complete) (unchanged t v)
    | inr (s, e) ↦
        let cut : Returned
            (some (false, record t { owner = none }, remove_session s.session_id ∷ [])) =
          record { kept = _; task = _; effects = _; returns = refl; valid = λ s' e'. cc } in
        rw (e, complete)
          (if-elim Returned result
            (if-elim Returned (transferred == 0) cut (received-Returned io s transferred (v s e)))
            cut)
  ]

  -- Every call of the task returns, whatever came in, and leaves a ring with its positions in the
  -- array.
  pub run-Returned :
      (io : IoResult) (result : Bool) (transferred : ℕ) (t : ReceiveTask)
      → TaskIsValid t
      → Returned (run verify unpack io result transferred t)
  unfolding run
  run-Returned io result transferred t v =
      switch_step-elim Returned t.step (start-Returned io t v)
        (complete-Returned io result transferred t v) (unchanged t v)
