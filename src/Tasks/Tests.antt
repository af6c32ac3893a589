-- ===== src/Tasks/Tests.antt =====
-- Runs of the tasks, and the theorems at them.
use mmoserver.Shared.{◌+◌, ◌≡◌, refl, inr, true, false, some, [], ◌∷◌, ltb, if◌then◌else◌}
use mmoserver.Receive.Defs.{running, pending}
use mmoserver.Sessions.{Server, init}
use mmoserver.Sessions.Laws.{init-IsFresh}
use mmoserver.Tasks.Defs.{
  NetworkSession, new_session, Winsock, opened, given_away, outstanding, new_user, open_socket,
  accept_ex, set_option, post,
}
use mmoserver.Tasks.Accept.{AcceptTask, accept_run, accept_complete, accept_start, accept_result}
use mmoserver.Tasks.Connect.{ConnectTask}
use mmoserver.Tasks.Worker.{Outcome, connect_io_task, accept_io_task, run}
use mmoserver.Tasks.Lifetime.{is_connect, kept_lem, holds, forgotten, accept_sockets}

-- The next socket is 40, overlapped calls are pending, and a peer 9 with port 5000 was accepted.
abbrev network : Winsock
network = record {
  socket = some 40;
  io = pending;
  bound = true;
  listening = true;
  extension = true;
  remote = some (some (9 ∷ []), 5000);
  getaddrinfo = λ name. some (record { addr = 77; port = 0 });
  inet_pton = λ text. 5;
  isalpha = λ c. ltb 64 c;
}

abbrev listener : NetworkSession
listener = record (new_session 1) { socket = some 30 }

-- An accept of socket 39 is under way.
abbrev accepting : AcceptTask
accepting = record { owner = some listener; step = running; client_socket = some 39 }

accept_again :
    (accept_run network true accepting).2
    ≡ set_option 39
      ∷ post (new_user (some (9 ∷ [])) 5000 39)
      ∷ open_socket 40
      ∷ accept_ex (some 30) 40 pending
      ∷ []
unfolding accept_run accept_complete accept_start accept_result
accept_again = refl

abbrev empty_table : Server NetworkSession
empty_table = init

accepted_outcome :
    (o : Outcome) × (run network true (accept_io_task accepting) empty_table ≡ some o)
unfolding run
accepted_outcome = (_, refl)

kept_lem_example :
    (if accepted_outcome.0.kept then 1 else 0)
    ≡ outstanding accepted_outcome.0.acts + is_connect (accept_io_task accepting)
kept_lem_example =
    kept_lem network true (accept_io_task accepting) empty_table init-IsFresh accepted_outcome.1

accept_sockets_example :
    let (kept, t', acts) = accept_run network true accepting in
    holds 39 accepting + opened 39 acts
    ≡ given_away 39 acts + (if kept then holds 39 t' else 0) + forgotten 39 network true accepting
accept_sockets_example = accept_sockets network true accepting listener 39 refl (inr refl) (λ e. cc)

-- The connection of session 1 fails.
abbrev connecting : ConnectTask
connecting = record { owner = some (new_session 1); step = running }

abbrev one_session : Server NetworkSession
one_session = record { last_session_id = 2; sessions = (1, new_session 1) ∷ [] }

failed_outcome :
    (o : Outcome) × (run network false (connect_io_task connecting) one_session ≡ some o)
unfolding run
failed_outcome = (_, refl)

abbrev by_name : NetworkSession
by_name = record (new_session 1) { ip = some (b'h' ∷ []); port = 7777 }
