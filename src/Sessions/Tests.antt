-- ===== src/Sessions/Tests.antt =====
-- A table of one session, and the theorems on it.
use mmoserver.Shared.{ℕ, ◌≡◌, none, false, [], ◌∷◌, ◌==◌, if◌then◌else◌, arith, ◌↔◌, ◌+◌}
use mmoserver.Sessions.{Server, find_session, remove_session, lookup}
use mmoserver.Sessions.Laws.{IsFresh, Created, create-Created, remove_lem}

abbrev one : Server ℕ
one = record { last_session_id = 2; sessions = (1, 70) ∷ [] }

one-IsFresh : IsFresh one
unfolding find_session lookup
one-IsFresh id h = ground arith

abbrev make : ℕ → ℕ
make id = id + 100

create-Created_example : Created make one
create-Created_example = create-Created make one one-IsFresh

remove_lem_example :
    let (there, gone, after) = remove_session 1 one in
    (gone ≡ find_session 1 one)
    × ((there ≡ false) ↔ (find_session 1 one ≡ none))
    × ((other : ℕ)
        → find_session other after ≡ (if 1 == other then none else find_session other one))
    × IsFresh after
    × (after.last_session_id ≡ one.last_session_id)
remove_lem_example = remove_lem 1 one one-IsFresh
