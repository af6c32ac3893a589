-- ===== src/Bots/Runs.antt =====
-- What every run of the bots keeps (DummyClient/BotManager.cpp, DummyClient/DummyClient.cpp).
use mmoserver.Shared.{
  ℕ, zero, suc, ◌%◌, ◌^◌, pos, some, ◌+◌, ◌≡◌, Bool, List, [], ◌∷◌, ◌++◌, leb, arith, refl, length,
  if-elim,
}
use mmoserver.Bots.{
  BotConfig, Bot, Totals, initialize, start, try_assign_session_ids, tick_loop, tick_bot, Turn,
}
use mmoserver.Bots.Laws.{AllValid, sends, sends-append, tick_bot-Follows, tick_loop_lem}
use mmoserver.Bots.Manager.{
  LiveStats, count_states, print_live_stats, Played, started, manager_of, begin, Round, tick_bots,
  tick, run,
}

abbrev pub total_packets : List Bot → ℕ
total_packets [] = 0
total_packets (b ∷ bs) = b.total_packets_sent + total_packets bs

abbrev pub total_reconnects : List Bot → ℕ
total_reconnects [] = 0
total_reconnects (b ∷ bs) = b.reconnect_count + total_reconnects bs

-- The states that are printed are those of all bots.
abbrev pub IsPrinted : ℕ → List LiveStats → Type 0
IsPrinted n [] = Unit
IsPrinted n (s ∷ ss) =
    (s.connected_bots + s.connecting_bots + s.disconnected_bots ≡ n) × IsPrinted n ss

pub record IsPlayed (cfg : BotConfig) (n : ℕ) (p : Played) : Type 0 where
  pub all_valid : AllValid cfg p.manager.bots
  pub same_number : length p.manager.bots ≡ n
  pub sent_packets : p.manager.totals.sent % 2 ^ 32 ≡ total_packets p.manager.bots % 2 ^ 32
  pub sent_calls : p.manager.totals.sent % 2 ^ 64 ≡ sends p.calls % 2 ^ 64
  pub reconnected : p.manager.totals.reconnects % 2 ^ 32 ≡ total_reconnects p.manager.bots % 2 ^ 32
  pub printed : IsPrinted n p.printed

initialize_lem :
    (cfg : BotConfig) (now slot count : ℕ)
    → let (bs, calls) = start now (initialize slot count) in
      AllValid cfg bs
      × (length bs ≡ count)
      × (total_packets bs ≡ 0)
      × (total_reconnects bs ≡ 0)
      × (sends calls ≡ 0)
initialize_lem cfg now slot zero = (tt, refl, refl, refl, refl)
initialize_lem cfg now slot (suc count) =
    let (valid, number, packets, reconnects, calls) = initialize_lem cfg now (slot + 1) count in
    (
      (record { has_id = refl; in_cycle = omega arith }, valid),
      omega (arith, number),
      omega (arith, packets),
      omega (arith, reconnects),
      calls,
    )

module _ (find_session : ℕ → Bool) (cfg : BotConfig) where
  assign_keeps :
      (bs : List Bot) (last : ℕ)
      → AllValid cfg bs
      → let (bs', last') = try_assign_session_ids find_session bs last in
        AllValid cfg bs'
        × (length bs' ≡ length bs)
        × (total_packets bs' ≡ total_packets bs)
        × (total_reconnects bs' ≡ total_reconnects bs)
  unfolding try_assign_session_ids
  assign_keeps [] last v = (tt, refl, refl, refl)
  assign_keeps (b ∷ bs) last v =
      ground
        (arith, v.0.has_id, v.0.in_cycle, assign_keeps bs last v.1, assign_keeps bs (last + 1) v.1)

  loop_counts :
      (now : ℕ) (bs : List Bot) (totals : Totals)
      → AllValid cfg bs
      → let (bs', totals', calls) = tick_loop find_session cfg now bs totals in
        ((totals'.sent + total_packets bs) % 2 ^ 32 ≡ (totals.sent + total_packets bs') % 2 ^ 32)
        × ((totals'.reconnects + total_reconnects bs) % 2 ^ 32
            ≡ (totals.reconnects + total_reconnects bs') % 2 ^ 32)
  unfolding tick_loop
  loop_counts now [] totals v = (refl, refl)
  loop_counts now (b ∷ bs) totals v =
      let t : Turn = record { bot = b; totals = totals; calls = [] } in
      let f = tick_bot-Follows find_session cfg now t v.0 in
      let t' = tick_bot find_session cfg now t in
      let (packets, reconnects) = loop_counts now bs t'.totals v.1 in
      (omega (arith, f.counted, packets), omega (arith, f.reconnected, reconnects))

counts_lem :
    (bs : List Bot) (s : LiveStats)
    → let c = count_states bs s in
      c.connected_bots + c.connecting_bots + c.disconnected_bots
      ≡ s.connected_bots + s.connecting_bots + s.disconnected_bots + length bs
counts_lem [] s = omega arith
counts_lem (b ∷ bs) s = ground (arith, counts_lem bs s)

-- The bots of a tick that is not stopped, whatever is printed.
tick_bots-IsPlayed :
    (cfg : BotConfig) (n : ℕ) (r : Round) (p : Played)
    → IsPlayed cfg n p
    → let (m, calls) = tick_bots cfg r p.manager in
      IsPlayed cfg n (record p { manager = m; calls = p.calls ++ calls })
tick_bots-IsPlayed cfg n r p h =
    let (assigned, last) =
      try_assign_session_ids r.find_session p.manager.bots p.manager.last_assigned_id in
    let (valid, number, packets, reconnects) =
      assign_keeps r.find_session cfg p.manager.bots p.manager.last_assigned_id h.all_valid in
    let (valid', number', sent) =
      tick_loop_lem r.find_session cfg r.now assigned p.manager.totals valid in
    let (packets', reconnects') =
      loop_counts r.find_session cfg r.now assigned p.manager.totals valid in
    let (bots, totals, calls) = tick_loop r.find_session cfg r.now assigned p.manager.totals in
    record {
      all_valid = valid';
      same_number = omega (arith, number', number, h.same_number);
      sent_packets = omega (arith, packets', packets, h.sent_packets);
      sent_calls = omega (arith, sends-append p.calls calls, sent, h.sent_calls);
      reconnected = omega (arith, reconnects', reconnects, h.reconnected);
      printed = h.printed;
    }

tick-IsPlayed :
    (cfg : BotConfig) (n : ℕ) (r : Round) (p : Played)
    → IsPlayed cfg n p
    → IsPlayed cfg n (tick cfg r p)
unfolding tick print_live_stats
tick-IsPlayed cfg n r p h =
    let next = tick_bots-IsPlayed cfg n r p h in
    let (m, calls) = tick_bots cfg r p.manager in
    if-elim (IsPlayed cfg n) p.manager.stop_requested h (
      if-elim (IsPlayed cfg n) (leb p.manager.next_stats_time r.now)
        (record {
          all_valid = next.all_valid;
          same_number = next.same_number;
          sent_packets = next.sent_packets;
          sent_calls = next.sent_calls;
          reconnected = next.reconnected;
          printed = (omega (arith, counts_lem m.bots _, next.same_number), h.printed);
        })
        next)

started-IsPlayed :
    (cfg : BotConfig) (n now : ℕ) → IsPlayed cfg n (started now (manager_of (initialize 0 n)))
started-IsPlayed cfg n now =
    let (valid, number, packets, reconnects, calls) = initialize_lem cfg now 0 n in
    record {
      all_valid = valid;
      same_number = number;
      sent_packets = omega (arith, packets);
      sent_calls = omega (arith, calls);
      reconnected = omega (arith, reconnects);
      printed = tt;
    }

runs_on :
    (cfg : BotConfig) (n : ℕ) (rs : List Round) (p : Played)
    → IsPlayed cfg n p
    → IsPlayed cfg n (run cfg rs p)
unfolding run
runs_on cfg n [] p h = h
runs_on cfg n (r ∷ rs) p h =
    if-elim (IsPlayed cfg n) r.stop
      (record {
        all_valid = h.all_valid;
        same_number = h.same_number;
        sent_packets = h.sent_packets;
        sent_calls = h.sent_calls;
        reconnected = h.reconnected;
        printed = h.printed;
      })
      (runs_on cfg n rs (tick cfg r p) (tick-IsPlayed cfg n r p h))

-- On a configuration with no negative number of bots the manager starts, and after any ticks, at any
-- times and with any sessions in the table, there are as many bots as configured; each has a session id
-- exactly while it is connected, and no more packets than a cycle has, none when that is negative; the
-- total of the packets sent is the number of calls of Send, as a word of 64 bits, and the sum of what
-- the bots have counted, as a word of 32 bits; the total of reconnects is the sum of those of the bots,
-- as a word of 32 bits; and the numbers of bots in each state that were printed sum up to all of them.
pub run-IsPlayed :
    (cfg : BotConfig) (n now : ℕ) (rs : List Round)
    → cfg.bot_count ≡ pos n
    → (p : Played) × (begin now cfg ≡ some p) × IsPlayed cfg n (run cfg rs p)
unfolding begin
run-IsPlayed cfg n now rs e =
    let p = started now (manager_of (initialize 0 n)) in
    (p, rw e refl, runs_on cfg n rs p (started-IsPlayed cfg n now))
