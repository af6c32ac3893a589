-- ===== src/PlayServer/Laws.antt =====
-- What the dispatch of PlayServer calls (PlayServer/PlayServer.cpp).
use mmoserver.Shared.{
  ℕ, ◌≡◌, ◌≢◌, List, [], ◌∷◌, ◌==◌, if◌then◌else◌, arith, refl, Bool-cases, inl, inr,
}
use mmoserver.Sessions.{lookup}
use mmoserver.PlayServer.{
  MessageHolder, on_clgs_authen_req, register_packet, new, main_dispatch, execute,
}

module _ {Message : Type 0} (no_type clgs_authen_req : ℕ) where
  quiet :
      (jobs : List ℕ) (holder : MessageHolder Message)
      → holder.type ≢ clgs_authen_req
      → execute no_type (new clgs_authen_req) jobs holder ≡ (holder, [])
  unfolding execute main_dispatch new register_packet lookup
  quiet [] holder other = refl
  quiet (id ∷ jobs) holder other = ground (arith, quiet jobs holder other)

  -- Jobs that share one message holder, executed one after the other by a new PlayServer, call the
  -- handler of CLGS_AUTHEN_REQ once, for the first job, when the message is of that type, and else call
  -- nothing; the type of the holder is NONE behind such a call.
  pub execute_once :
      (session_id : ℕ) (jobs : List ℕ) (holder : MessageHolder Message)
      → no_type ≢ clgs_authen_req
      → execute no_type (new clgs_authen_req) (session_id ∷ jobs) holder ≡ (
          if holder.type == clgs_authen_req
          then (
            record holder { type = no_type },
            record { handler = on_clgs_authen_req; session_id = session_id; msg = holder.value }
                ∷ [],
          )
          else (holder, []))
  unfolding execute main_dispatch new register_packet lookup
  execute_once id jobs holder other = elim (Bool-cases (holder.type == clgs_authen_req)) [
    | inl e ↦ ground (arith, quiet jobs (record holder { type = no_type }) other)
    | inr e ↦ ground (arith, quiet jobs holder)
  ]
