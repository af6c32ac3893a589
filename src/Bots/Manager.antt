-- ===== src/Bots/Manager.antt =====
-- BotManager of DummyClient/BotManager.cpp as a whole, and the loop of DummyClient::Run
-- (DummyClient/DummyClient.cpp): `Start`, then `Tick` again and again, with the numbers that are
-- printed. The clock is read once in a tick.
use mmoserver.Shared.{
  ℕ, ◌+◌, ◌-◌, ◌*◌, ◌/◌, ◌%◌, ◌^◌, pos, negsuc, Bool, true, false, Option, none, some, List, [],
  ◌∷◌, ◌++◌, leb, if◌then◌else◌,
}
use mathlib.Core.Option as Option
use mmoserver.Bots.{
  BotConfig, connecting, connected, disconnected, Bot, Totals, Call, initialize, start,
  try_assign_session_ids, tick_loop,
}

pub record BotManager : Type 0 where
  pub bots : List Bot
  pub last_assigned_id : ℕ
  pub start_time : ℕ
  pub next_stats_time : ℕ
  pub totals : Totals
  pub stop_requested : Bool

-- What PrintLiveStats prints; the numbers of bots are below 2 ^ 31, since `botCount` is.
pub record LiveStats : Type 0 where
  pub elapsed : ℕ
  pub connected_bots : ℕ
  pub connecting_bots : ℕ
  pub disconnected_bots : ℕ
  pub totals : Totals

-- The loop of PrintLiveStats, over the bots from the end on.
abbrev pub count_states : List Bot → LiveStats → LiveStats
count_states [] stats = stats
count_states (b ∷ bs) stats =
    let rest = count_states bs stats in
    elim b.state [
      | connected ↦ record rest { connected_bots = rest.connected_bots + 1 }
      | connecting ↦ record rest { connecting_bots = rest.connecting_bots + 1 }
      | disconnected ↦ record rest { disconnected_bots = rest.disconnected_bots + 1 }
    ]

unfoldable pub print_live_stats : ℕ → BotManager → LiveStats
print_live_stats now m = count_states m.bots (record {
  elapsed = (now - m.start_time) / 1000 % 2 ^ 32;
  connected_bots = 0;
  connecting_bots = 0;
  disconnected_bots = 0;
  totals = m.totals;
})

-- What PrintSummary prints: the time, the totals, and the packets of a second unless no time has
-- gone by.
abbrev pub print_summary : ℕ → BotManager → ℕ × Totals × Option ℕ
print_summary now m =
    let elapsed = now - m.start_time in
    (elapsed, m.totals, if leb elapsed 0 then none else some (m.totals.sent * 1000 / elapsed))

abbrev pub request_stop : BotManager → BotManager
request_stop m = record m { stop_requested = true }

abbrev pub manager_of : List Bot → BotManager
manager_of bots = record {
  bots = bots;
  last_assigned_id = 0;
  start_time = 0;
  next_stats_time = 0;
  totals = record { sent = 0; disconnects = 0; reconnects = 0; send_errors = 0 };
  stop_requested = false;
}

-- `resize` throws on a negative number of bots.
abbrev pub new_manager : BotConfig → Option BotManager
new_manager cfg = elim cfg.bot_count [
  | pos n ↦ some (manager_of (initialize 0 n))
  | negsuc n ↦ none
]

-- The manager after some calls, and what was printed.
pub record Played : Type 0 where
  pub manager : BotManager
  pub calls : List Call
  pub printed : List LiveStats

abbrev pub started : ℕ → BotManager → Played
started now m =
    let (bots, calls) = start now m.bots in
    record {
      manager = record m { bots = bots; start_time = now; next_stats_time = now + 1000 };
      calls = calls;
      printed = [];
    }

-- `Initialize` and `Start`.
unfoldable pub begin : ℕ → BotConfig → Option Played
begin now cfg = Option.map (started now) (new_manager cfg)

-- The clock and the sessions that exist in a tick, and whether a stop is requested before it.
pub record Round : Type 0 where
  pub now : ℕ
  pub find_session : ℕ → Bool
  pub stop : Bool

abbrev pub tick_bots : BotConfig → Round → BotManager → BotManager × List Call
tick_bots cfg r m =
    let (assigned, last) = try_assign_session_ids r.find_session m.bots m.last_assigned_id in
    let (bots, totals, calls) = tick_loop r.find_session cfg r.now assigned m.totals in
    (record m { bots = bots; last_assigned_id = last; totals = totals }, calls)

unfoldable pub tick : BotConfig → Round → Played → Played
unfolding print_live_stats
tick cfg r p =
    let (m, calls) = tick_bots cfg r p.manager in
    if p.manager.stop_requested
    then p
    else (if leb p.manager.next_stats_time r.now
        then record {
          manager = record m { next_stats_time = r.now + 1000 };
          calls = p.calls ++ calls;
          printed = print_live_stats r.now m ∷ p.printed;
        }
        else record p { manager = m; calls = p.calls ++ calls })

-- The loop of Run: it ends at a stop.
unfoldable pub run : BotConfig → List Round → Played → Played
unfolding tick
run cfg [] p = p
run cfg (r ∷ rs) p =
    let stopped = record p { manager = request_stop p.manager } in
    let next = run cfg rs (tick cfg r p) in if r.stop then stopped else next
