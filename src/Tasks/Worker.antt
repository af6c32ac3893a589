-- ===== src/Tasks/Worker.antt =====
-- NetworkServer::WorkerThread: a completion is handed to its task, and the task is deleted when its
-- `Run` returns false.
use mmoserver.Shared.{ℕ, Bool, Option, none, some, List, if◌then◌else◌}
use mmoserver.Sessions.{Server}
use mmoserver.Tasks.Defs.{NetworkSession, Winsock, Act, modify_session}
use mmoserver.Tasks.Accept.{AcceptTask, accept_run, new_user_run, listen_run}
use mmoserver.Tasks.Connect.{ConnectTask, connect_run, connect_io_run}

-- The tasks that open connections.
pub data Task : Type 0 where
  listen_task : Task
  accept_io_task : AcceptTask → Task
  new_user_task : (ip : Option (List ℕ)) → (port : ℕ) → (socket : ℕ) → Task
  connect_task : (ip : List ℕ) → (port : ℕ) → Task
  connect_io_task : ConnectTask → Task

-- The task after the run, with the result of `Run`, the table and what was done; `none` is a fault.
pub record Outcome : Type 0 where
  pub kept : Bool
  pub task : Task
  pub server : Server NetworkSession
  pub acts : List Act

-- A new socket of a session is seen through the table too, which has the same object.
abbrev pub share_socket : ConnectTask → Server NetworkSession → Server NetworkSession
share_socket t v = elim t.owner [
  | none ↦ v
  | some s ↦ modify_session s.session_id (λ x. record x { socket = s.socket }) v
]

unfoldable pub run : Winsock → Bool → Task → Server NetworkSession → Option Outcome
unfolding listen_run accept_run new_user_run connect_run connect_io_run
run w result listen_task v =
    let (kept, v', acts) = listen_run w v in
    some (record { kept = kept; task = listen_task; server = v'; acts = acts })
run w result (accept_io_task t) v =
    let (kept, t', acts) = accept_run w result t in
    some (record { kept = kept; task = accept_io_task t'; server = v; acts = acts })
run w result (new_user_task ip port socket) v =
    let (kept, v', acts) = new_user_run ip port socket v in
    some (record { kept = kept; task = new_user_task ip port socket; server = v'; acts = acts })
run w result (connect_task ip port) v =
    let (kept, v', acts) = connect_run ip port v in
    some (record { kept = kept; task = connect_task ip port; server = v'; acts = acts })
run w result (connect_io_task t) v = elim (connect_io_run w result t) [
  | none ↦ none
  | some (kept, t', acts) ↦
      some
        (record { kept = kept; task = connect_io_task t'; server = share_socket t' v; acts = acts })
]

-- The object of a task stays in memory after a run.
unfoldable pub worker_step :
    Winsock → Bool → Task → Server NetworkSession → Option (Option Task × Outcome)
unfolding run
worker_step w result t v = elim (run w result t v) [
  | none ↦ none
  | some o ↦ some (if o.kept then some o.task else none, o)
]
