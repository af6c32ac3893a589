-- ===== src/Bots/Laws.antt =====
-- What a tick keeps of each bot, and what the totals count.
use mmoserver.Shared.{
  refl, ℕ, ◌%◌, ◌^◌, pos_part, ◌+◌, ◌≤◌, ◌≡◌, Bool, true, false, List, [], ◌∷◌, ◌++◌, ltb, arith,
  ◌<◌, Bool-cases, length, if◌then◌else◌, inl, ◌&&◌, inr,
}
use mmoserver.Families.{occurrences}
use mmoserver.Bots.{
  BotConfig, BotState, connecting, connected, disconnected, Bot, Call, connect, send,
  remove_session, Turn, tick_send, tick_cycle, send_packet, disconnect_bot, tick_bot, tick_loop,
  try_assign_session_ids, Totals, reconnect_bot, leb,
}

abbrev pub is_connected : BotState → Bool
is_connected connecting = false
is_connected connected = true
is_connected disconnected = false

-- A bot has a session id exactly while it is connected, and has not sent more than a cycle, nothing
-- when that is negative.
pub record IsValid (cfg : BotConfig) (b : Bot) : Type 0 where
  pub has_id : ltb 0 b.session_id ≡ is_connected b.state
  pub in_cycle : b.packets_sent ≤ pos_part cfg.packets_per_bot

abbrev pub sends : List Call → ℕ
sends [] = 0
sends (connect ∷ cs) = sends cs
sends (send id seq ∷ cs) = 1 + sends cs
sends (remove_session id ∷ cs) = sends cs

pub sends-append : (cs ds : List Call) → sends (cs ++ ds) ≡ sends cs + sends ds
sends-append [] ds = omega arith
sends-append (connect ∷ cs) ds = sends-append cs ds
sends-append (send id seq ∷ cs) ds = omega (arith, sends-append cs ds)
sends-append (remove_session id ∷ cs) ds = sends-append cs ds

-- How the turn `t'` of a bot comes after `t`: the totals count the packets passed to `Send`, and go
-- up by what the counters of the bot go up, as words of the smaller number of bits.
pub record Follows (cfg : BotConfig) (t t' : Turn) : Type 0 where
  pub valid : IsValid cfg t'.bot
  pub sent : (t'.totals.sent + sends t.calls) % 2 ^ 64 ≡ (t.totals.sent + sends t'.calls) % 2 ^ 64
  pub counted :
      (t'.totals.sent + t.bot.total_packets_sent) % 2 ^ 32
      ≡ (t.totals.sent + t'.bot.total_packets_sent) % 2 ^ 32
  pub reconnected :
      (t'.totals.reconnects + t.bot.reconnect_count) % 2 ^ 32
      ≡ (t.totals.reconnects + t'.bot.reconnect_count) % 2 ^ 32
  pub same_slot : t'.bot.slot ≡ t.bot.slot

module _ (find_session : ℕ → Bool) (cfg : BotConfig) where
  send-Follows :
      (now : ℕ) (t : Turn) → IsValid cfg t.bot → Follows cfg t (tick_send find_session cfg now t)
  unfolding tick_send send_packet
  send-Follows now t v =
      ground (arith, sends-append t.calls (send t.bot.session_id (t.bot.packets_sent + 1) ∷ []))

  cycle-Follows :
      (now : ℕ) (t : Turn) → IsValid cfg t.bot → Follows cfg t (tick_cycle find_session cfg now t)
  unfolding tick_cycle disconnect_bot
  cycle-Follows now t v =
      ground (arith, sends-append t.calls (remove_session t.bot.session_id ∷ []))

  -- What one bot's part of a tick does to a valid bot: the bot is valid afterwards, and the totals and
  -- the counters of the bot go up alike.
  pub tick_bot-Follows :
      (now : ℕ) (t : Turn) → IsValid cfg t.bot → Follows cfg t (tick_bot find_session cfg now t)
  unfolding tick_bot reconnect_bot
  tick_bot-Follows now t v = elim (Bool-cases (is_connected t.bot.state)) [
    | inl on ↦
        let first : Follows cfg t (tick_send find_session cfg now t) = send-Follows now t v in
        let second = cycle-Follows now (tick_send find_session cfg now t) first.valid in
        ground (arith, first, second)
    | inr off ↦ ground (arith, sends-append t.calls (connect ∷ []))
  ]

-- The same of every bot.
abbrev pub AllValid : BotConfig → List Bot → Type 0
AllValid cfg [] = Unit {0}
AllValid cfg (b ∷ bs) = IsValid cfg b × AllValid cfg bs

abbrev pub ids : List Bot → List ℕ
ids [] = []
ids (b ∷ bs) = b.session_id ∷ ids bs

module _ (find_session : ℕ → Bool) (cfg : BotConfig) where
  -- A pass of `Tick` over valid bots leaves valid bots, as many as before, and its total of sent
  -- packets goes up by the number of packets that it passed to `Send`, as a word of 64 bits.
  pub tick_loop_lem :
      (now : ℕ) (bs : List Bot) (totals : Totals)
      → AllValid cfg bs
      → let (bs', totals', calls) = tick_loop find_session cfg now bs totals in
        AllValid cfg bs'
        × (length bs' ≡ length bs)
        × (totals'.sent % 2 ^ 64 ≡ (totals.sent + sends calls) % 2 ^ 64)
  unfolding tick_loop
  tick_loop_lem now [] totals v = (tt, refl, omega arith)
  tick_loop_lem now (b ∷ bs) totals v =
      let t : Turn = record { bot = b; totals = totals; calls = [] } in
      let f = tick_bot-Follows find_session cfg now t v.0 in
      let t' = tick_bot find_session cfg now t in
      let (valid, same, counted) = tick_loop_lem now bs t'.totals v.1 in
      (
        (f.valid, valid),
        ground (arith, same),
        omega (
          arith,
          f.sent,
          counted,
          sends-append t'.calls (tick_loop find_session cfg now bs t'.totals).2,
        ),
      )

  -- The polling of valid bots leaves valid bots, and gives each id from the one after `last` up to the
  -- new last one to just one bot; no other id comes or goes.
  pub try_assign_lem :
      (bs : List Bot) (last id : ℕ)
      → AllValid cfg bs
      → 0 < id
      → let (bs', last') = try_assign_session_ids find_session bs last in
        AllValid cfg bs'
        × (last ≤ last')
        × (occurrences id (ids bs')
            ≡ occurrences id (ids bs) + (if ltb last id && leb id last' then 1 else 0))
  unfolding try_assign_session_ids
  try_assign_lem [] last id v positive = (tt, omega arith, ground arith)
  try_assign_lem (b ∷ bs) last id v positive = ground (
    arith,
    v.0.has_id,
    v.0.in_cycle,
    try_assign_lem bs last id v.1 positive,
    try_assign_lem bs (last + 1) id v.1 positive,
  )
