-- ===== src/Sessions.antt =====
-- The session table of NetworkServer (ServerCore/Network/NetworkServer.cpp) and the session ids of
-- UIDGenerator (ServerCore/Utill/UIDGenerator.cpp). Each operation holds the table's recursive lock
-- from its start to its end, so it is one function on the table. A session is any value.
pub mod Laws
mod Tests
use mmoserver.Shared.{
  ℕ, ◌+◌, Option, none, some, Bool, true, false, List, [], ◌∷◌, ◌==◌, if◌then◌else◌,
}

-- The table, and `m_lastSessionID`.
pub record Server {ℓ} (Session : Type ℓ) : Type ℓ where
  pub last_session_id : ℕ
  pub sessions : List (ℕ × Session)

module _ {ℓ} {Session : Type ℓ} where
  abbrev pub init : Server Session
  init = record { last_session_id = 1; sessions = [] }

  -- `find` on the map.
  unfoldable pub lookup : ℕ → List (ℕ × Session) → Option Session
  lookup id [] = none
  lookup id ((i, s) ∷ rest) = let other = lookup id rest in if i == id then some s else other

  -- `erase` on the map.
  unfoldable pub erase : ℕ → List (ℕ × Session) → List (ℕ × Session)
  erase id [] = []
  erase id ((i, s) ∷ rest) =
      let others = erase id rest in if i == id then others else (i, s) ∷ others

  -- `insert` on the map fails when the key is there.
  unfoldable pub insert : ℕ → Session → List (ℕ × Session) → Option (List (ℕ × Session))
  insert id s table = elim (lookup id table) [ none ↦ some ((id, s) ∷ table) | some old ↦ none ]

  unfoldable pub generate_session_id : Server Session → ℕ × Server Session
  generate_session_id v = (v.last_session_id, record v { last_session_id = v.last_session_id + 1 })

  -- A session is made for the id that it is given; `none` is a null pointer.
  unfoldable pub create_new_session :
      (ℕ → Session) → Server Session → Option (ℕ × Session) × Server Session
  unfolding generate_session_id insert
  create_new_session make v =
      let (id, v') = generate_session_id v in
      elim (insert id (make id) v'.sessions) [
        | none ↦ (none, v')
        | some table ↦ (some (id, make id), record v' { sessions = table })
      ]

  unfoldable pub find_session : ℕ → Server Session → Option Session
  unfolding lookup
  find_session id v = lookup id v.sessions

  -- The result, the session that is disconnected, and the table.
  unfoldable pub remove_session : ℕ → Server Session → Bool × Option Session × Server Session
  unfolding find_session
  remove_session id v = elim (find_session id v) [
    | none ↦ (false, none, v)
    | some s ↦ (true, some s, record v { sessions = erase id v.sessions })
  ]
