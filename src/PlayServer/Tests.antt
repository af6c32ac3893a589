-- ===== src/PlayServer/Tests.antt =====
-- A message of type 9003, which is the one that is handled, in two jobs.
use mmoserver.Shared.{◌≡◌, [], ◌∷◌, arith, ℕ, ◌==◌, if◌then◌else◌}
use mmoserver.PlayServer.{MessageHolder, on_clgs_authen_req, new, execute}
use mmoserver.PlayServer.Laws.{execute_once}

abbrev authen : MessageHolder ℕ
authen = record { type = 9003; value = 5 }

execute_once_example : execute 0 (new 9003) (1 ∷ 2 ∷ []) authen ≡ (
    if authen.type == 9003
    then (
      record authen { type = 0 },
      record { handler = on_clgs_authen_req; session_id = 1; msg = 5 } ∷ [],
    )
    else (authen, []))
execute_once_example = execute_once 0 9003 1 (2 ∷ []) authen (λ e. absurd (omega arith))
