-- ===== src/Sessions/Laws.antt =====
-- The session table as a map, and the ids that are handed out
-- (ServerCore/Network/NetworkServer.cpp).
use mmoserver.Shared.{
  ℕ, ◌+◌, ◌≤◌, ◌≡◌, refl, none, some, false, List, [], ◌∷◌, ◌==◌, if◌then◌else◌, arith,
  Option-cases, inl, inr, ◌↔◌,
}
use mmoserver.Sessions.{
  Server, init, lookup, erase, insert, generate_session_id, create_new_session, find_session,
  remove_session,
}

module _ {Session : Type 0} where
  -- No id from the counter on is in the table.
  abbrev pub IsFresh : Server Session → Type 0
  IsFresh v = (id : ℕ) → v.last_session_id ≤ id → find_session id v ≡ none

  pub init-IsFresh : IsFresh init
  unfolding find_session lookup
  init-IsFresh id h = refl

  lookup-erase :
      (id other : ℕ) (table : List (ℕ × Session))
      → lookup other (erase id table) ≡ (if id == other then none else lookup other table)
  unfolding lookup erase
  lookup-erase id other [] = ground arith
  lookup-erase id other ((i, s) ∷ rest) = ground (arith, lookup-erase id other rest)

  -- What `CreateNewSession` does: it hands out the id of the counter with a new session, which the
  -- table has from then on, beside all that it had.
  pub record Created (make : ℕ → Session) (v : Server Session) : Type 0 where
    pub after : Server Session
    pub returns :
        create_new_session make v ≡ (some (v.last_session_id, make v.last_session_id), after)
    pub found :
        (id : ℕ)
        → find_session id after
          ≡ (if id == v.last_session_id then some (make v.last_session_id) else find_session id v)
    pub fresh : IsFresh after
    pub counted : after.last_session_id ≡ v.last_session_id + 1

  -- While no id from the counter on is in the table, `CreateNewSession` does not fail: it hands out
  -- the counter with a new session, adds just that to the table, and leaves no id from the new
  -- counter on in the table.
  pub create-Created : (make : ℕ → Session) (v : Server Session) → IsFresh v → Created make v
  unfolding create_new_session generate_session_id insert find_session lookup
  create-Created make v fresh = record {
    after = record {
      last_session_id = v.last_session_id + 1;
      sessions = (v.last_session_id, make v.last_session_id) ∷ v.sessions;
    };
    returns = ground (arith, fresh v.last_session_id);
    found = λ id. ground arith;
    fresh = λ id le. ground (arith, fresh id);
    counted = refl;
  }

  -- `RemoveSession` reports whether the session was there; then the session is not found any more, all
  -- others are found as before, and ids that were not used are still not in the table.
  pub remove_lem :
      (id : ℕ) (v : Server Session)
      → IsFresh v
      → let (there, gone, after) = remove_session id v in
        (gone ≡ find_session id v)
        × ((there ≡ false) ↔ (find_session id v ≡ none))
        × ((other : ℕ)
            → find_session other after ≡ (if id == other then none else find_session other v))
        × IsFresh after
        × (after.last_session_id ≡ v.last_session_id)
  unfolding remove_session find_session
  remove_lem id v fresh = elim (Option-cases (lookup id v.sessions)) [
    | inl e ↦ (
      ground arith,
      (ground arith, ground arith),
      λ other. ground arith,
      λ other le. ground (arith, fresh other),
      ground arith,
    )
    | inr (s, e) ↦ (
      ground arith,
      (ground arith, ground arith),
      λ other. ground (arith, lookup-erase id other v.sessions),
      λ other le. ground (arith, fresh other, lookup-erase id other v.sessions),
      ground arith,
    )
  ]
