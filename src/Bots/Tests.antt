-- ===== src/Bots/Tests.antt =====
-- A tick of two bots, and the theorems on it.
use mmoserver.Shared.{ℕ, ◌+◌, ◌≤◌, ◌≡◌, Bool, List, [], ◌∷◌, ltb, leb, ◌&&◌, if◌then◌else◌, arith}
use mmoserver.Families.{occurrences}
use mmoserver.Bots.{
  initialize, BotConfig, Bot, connected, Totals, initial_bot, try_assign_session_ids, tick_loop,
  disconnect_only, true,
}
use mmoserver.Shared.{none, negsuc, pos, some, refl, false}
use mmoserver.Bots.Manager.{Round, run, begin, started, manager_of, Played}
use mmoserver.Bots.Runs.{IsPlayed, run-IsPlayed}
use mmoserver.Bots.Laws.{IsValid, AllValid, ids, try_assign_lem}

abbrev config : BotConfig
config = record {
  scenario = disconnect_only;
  bot_count = pos 2;
  packets_per_bot = pos 1;
  packet_interval_ms = pos 100;
  reconnect_delay_ms = pos 1000;
  reconnect_rate_pct = pos 50;
}

-- The first bot has session 1, the second waits for one.
abbrev bots : List Bot
bots = record (initial_bot 0) { session_id = 1; state = connected } ∷ initial_bot 1 ∷ []

-- The sessions 1 and 2 exist.
abbrev is_there : ℕ → Bool
is_there id = leb id 2

abbrev no_totals : Totals
no_totals = record { sent = 0; disconnects = 0; reconnects = 0; send_errors = 0 }

waiting-IsValid : IsValid config (initial_bot 1)
waiting-IsValid = ground arith

bots-AllValid : AllValid config bots
bots-AllValid = (ground arith, (waiting-IsValid, tt))

try_assign_lem_example :
    let (bs', last') = try_assign_session_ids is_there bots 1 in
    AllValid config bs'
    × (1 ≤ last')
    × (occurrences 2 (ids bs')
        ≡ occurrences 2 (ids bots) + (if ltb 1 2 && leb 2 last' then 1 else 0))
try_assign_lem_example = try_assign_lem is_there config bots 1 2 bots-AllValid (omega arith)

-- Ticks with no session, with two, and more than a second later.
abbrev rounds : List Round
rounds =
    record { now = 5; find_session = λ id. false; stop = false }
    ∷ record { now = 20; find_session = is_there; stop = false }
    ∷ record { now = 1500; find_session = is_there; stop = false }
    ∷ record { now = 1600; find_session = is_there; stop = true }
    ∷ []

abbrev at_start : Played
at_start = started 0 (manager_of (initialize 0 2))

two_sent : (run config rounds at_start).manager.totals.sent ≡ 2
unfolding run tick_loop try_assign_session_ids
two_sent = refl

no_manager : begin 0 (record config { bot_count = negsuc 0 }) ≡ none
unfolding begin
no_manager = refl

run-IsPlayed_example :
    (p : Played) × (begin 0 config ≡ some p) × IsPlayed config 2 (run config rounds p)
run-IsPlayed_example = run-IsPlayed config 2 0 rounds refl
