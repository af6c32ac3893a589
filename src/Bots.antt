-- ===== src/Bots.antt =====
-- BotManager of DummyClient/BotManager.cpp: the bots, and what `Tick` does to them. Which sessions
-- exist, and the clock in milliseconds, are parameters of a tick: FindSession is asked only at the
-- ids that it is given, and a session that a bot removes in a tick is its own. The counters that are
-- only ever raised are words that wrap around, of 32 bits in a bot and of 64 in the totals.
pub mod Laws
pub mod Manager
pub mod Runs
mod Tests
use mmoserver.Shared.{
  ℕ, zero, suc, ◌+◌, ◌*◌, ◌/◌, ◌%◌, ◌^◌, ℤ, pos, negsuc, pos_part, neg_part, sub_ℕ, ltb_ℤ, leb_ℤ,
  to_int32, Bool, true, false, List, [], ◌∷◌, ◌++◌, ltb, leb, ◌==◌, if◌then◌else◌, ◌&&◌,
}

pub data BotScenario : Type 0 where
  static_send_recv disconnect_only reconnect : BotScenario

-- The numbers as they were read from the console, which may be negative.
pub record BotConfig : Type 0 where
  pub scenario : BotScenario
  pub bot_count : ℤ
  pub packets_per_bot : ℤ
  pub packet_interval_ms : ℤ
  pub reconnect_delay_ms : ℤ
  pub reconnect_rate_pct : ℤ

pub data BotState : Type 0 where
  connecting connected disconnected : BotState

-- `packets_sent` goes up only below `packets_per_bot`, and so does not wrap around.
pub record Bot : Type 0 where
  pub slot : ℕ
  pub session_id : ℕ
  pub packets_sent : ℕ
  pub total_packets_sent : ℕ
  pub reconnect_count : ℕ
  pub state : BotState
  pub next_send_time : ℤ
  pub next_action_time : ℤ

-- The calls of NetworkServer and NetworkSession.
pub data Call : Type 0 where
  connect : Call
  send : (session_id : ℕ) → (seq : ℕ) → Call
  remove_session : (session_id : ℕ) → Call

pub record Totals : Type 0 where
  pub sent : ℕ
  pub disconnects : ℕ
  pub reconnects : ℕ
  pub send_errors : ℕ

-- The increments of an `int32_t` and of an `int64_t`.
abbrev pub increment_32 : ℕ → ℕ
increment_32 n = (n + 1) % 2 ^ 32

abbrev pub increment_64 : ℕ → ℕ
increment_64 n = (n + 1) % 2 ^ 64

-- The clock and some milliseconds.
abbrev pub later : ℕ → ℤ → ℤ
later now ms = sub_ℕ (now + pos_part ms) (neg_part ms)

-- The division of an `int32_t`, which goes towards 0.
abbrev pub divide : ℤ → ℕ → ℤ
divide (pos a) n = pos (a / n)
divide (negsuc a) n = sub_ℕ 0 ((a + 1) / n)

-- A bot with the totals and the calls so far.
pub record Turn : Type 0 where
  pub bot : Bot
  pub totals : Totals
  pub calls : List Call

abbrev pub call : Turn → Call → Turn
call t c = record t { calls = t.calls ++ c ∷ [] }

abbrev pub initial_bot : ℕ → Bot
initial_bot slot = record {
  slot = slot;
  session_id = 0;
  packets_sent = 0;
  total_packets_sent = 0;
  reconnect_count = 0;
  state = connecting;
  next_send_time = pos 0;
  next_action_time = pos 0;
}

-- `Initialize`: the bots from `slot` on.
abbrev pub initialize : ℕ → ℕ → List Bot
initialize slot zero = []
initialize slot (suc count) = initial_bot slot ∷ initialize (slot + 1) count

-- The loop of `Start` over the bots.
abbrev pub start : ℕ → List Bot → List Bot × List Call
start now [] = ([], [])
start now (b ∷ bs) =
    let (rest, calls) = start now bs in
    (record b { state = connecting; next_send_time = pos now } ∷ rest, connect ∷ calls)

module _ (find_session : ℕ → Bool) where
  -- The bots and `m_lastAssignedID`.
  unfoldable pub try_assign_session_ids : List Bot → ℕ → List Bot × ℕ
  try_assign_session_ids [] last = ([], last)
  try_assign_session_ids (b ∷ bs) last =
      let skipped = try_assign_session_ids bs last in
      let assigned = try_assign_session_ids bs (last + 1) in
      elim b.state [
        | connected ↦ (b ∷ skipped.0, skipped.1)
        | disconnected ↦ (b ∷ skipped.0, skipped.1)
        | connecting ↦
            if find_session (last + 1)
            then (record b { session_id = last + 1; state = connected } ∷ assigned.0, assigned.1)
            else (b ∷ bs, last)
      ]

  module _ (cfg : BotConfig) where
    -- The packet's number is one more than those sent; false without a session.
    unfoldable pub send_packet : Turn → Bool × Turn
    send_packet t =
        if find_session t.bot.session_id
        then (true, call t (send t.bot.session_id (t.bot.packets_sent + 1)))
        else (false, t)

    -- The parameter is the clock.
    unfoldable pub disconnect_bot : ℕ → Turn → Turn
    disconnect_bot now t = elim t.bot.state [
      | connecting ↦ t
      | disconnected ↦ t
      | connected ↦ record (call t (remove_session t.bot.session_id)) {
        bot = record (t.bot) {
          session_id = 0;
          state = disconnected;
          next_action_time = later now cfg.reconnect_delay_ms;
        };
        totals = record (t.totals) { disconnects = increment_64 t.totals.disconnects };
      }
    ]

    unfoldable pub reconnect_bot : Turn → Turn
    reconnect_bot t = record (call t connect) {
      bot = record (t.bot) {
        state = connecting;
        packets_sent = 0;
        reconnect_count = increment_32 t.bot.reconnect_count;
      };
      totals = record (t.totals) { reconnects = increment_64 t.totals.reconnects };
    }

    unfoldable pub should_this_bot_reconnect : ℕ → Bool
    should_this_bot_reconnect slot =
        ltb_ℤ
          (divide (to_int32 (slot * 100 % 2 ^ 32))
            (if ltb_ℤ cfg.bot_count (pos 1) then 1 else pos_part cfg.bot_count))
          cfg.reconnect_rate_pct

    abbrev pub restart_count : Turn → Turn
    restart_count t = record t { bot = record (t.bot) { packets_sent = 0 } }

    -- The sending of a connected bot.
    unfoldable pub tick_send : ℕ → Turn → Turn
    unfolding send_packet
    tick_send now t =
        if ltb_ℤ (pos t.bot.packets_sent) cfg.packets_per_bot
          && leb_ℤ t.bot.next_send_time (pos now)
        then (let (ok, t') = send_packet t in
            let tried =
              if ok
              then record t' {
                bot = record (t'.bot) {
                  packets_sent = t'.bot.packets_sent + 1;
                  total_packets_sent = increment_32 t'.bot.total_packets_sent;
                };
                totals = record (t'.totals) { sent = increment_64 t'.totals.sent };
              }
              else record t' {
                totals = record (t'.totals) { send_errors = increment_64 t'.totals.send_errors };
              } in
            record tried {
              bot = record (tried.bot) { next_send_time = later now cfg.packet_interval_ms };
            })
        else t

    -- The end of a cycle.
    unfoldable pub tick_cycle : ℕ → Turn → Turn
    unfolding disconnect_bot should_this_bot_reconnect
    tick_cycle now t =
        if leb_ℤ cfg.packets_per_bot (pos t.bot.packets_sent)
        then (elim cfg.scenario [
          | static_send_recv ↦ restart_count t
          | disconnect_only ↦ disconnect_bot now t
          | reconnect ↦
              if should_this_bot_reconnect t.bot.slot then disconnect_bot now t else restart_count t
        ])
        else t

    -- The body of the loop in `Tick`.
    unfoldable pub tick_bot : ℕ → Turn → Turn
    unfolding tick_send tick_cycle reconnect_bot
    tick_bot now t = elim t.bot.state [
      | connecting ↦ t
      | connected ↦ tick_cycle now (tick_send now t)
      | disconnected ↦ if leb_ℤ t.bot.next_action_time (pos now) then reconnect_bot t else t
    ]

    -- The loop of `Tick`.
    unfoldable pub tick_loop : ℕ → List Bot → Totals → List Bot × Totals × List Call
    unfolding tick_bot
    tick_loop now [] totals = ([], totals, [])
    tick_loop now (b ∷ bs) totals =
        let t = tick_bot now (record { bot = b; totals = totals; calls = [] }) in
        let (rest, last, calls) = tick_loop now bs t.totals in
        (t.bot ∷ rest, last, t.calls ++ calls)
