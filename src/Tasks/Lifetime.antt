-- ===== src/Tasks/Lifetime.antt =====
-- How long the tasks, the sockets and the sessions live (ServerCore/Network/NetworkTask.cpp and
-- WorkerThread of NetworkServer.cpp).
use mmoserver.Shared.{
  ◌↔◌, ◌%◌, ◌^◌, ◌∷◌, [], true, Bool-cases, ◌⊎◌, inl, inr, ℕ, ◌+◌, ◌≡◌, Bool, none, some, List,
  ◌==◌, if◌then◌else◌, arith, Option-cases,
}
use mmoserver.Receive.Defs.{not_started, running, switch_step, done, pending, refused}
use mmoserver.Sessions.{find_session, lookup, Server}
use mmoserver.Sessions.Laws.{IsFresh, create-Created}
use mmoserver.Tasks.Defs.{
  Address, modify, NetworkSession, new_session, Winsock, Act, outstanding, opened, given_away,
}
use mmoserver.Tasks.Accept.{
  AcceptTask, accept_start, accept_result, accept_complete, accept_run, new_user_run, listen_run,
}
use mmoserver.Tasks.Connect.{
  ConnectTask, connect_run, connect_socket, connect_start, connect_complete, connect_io_run,
  remote_address,
}
use mmoserver.Tasks.Worker.{
  share_socket, Task, listen_task, accept_io_task, new_user_task, connect_task, connect_io_task,
  Outcome, run,
}

abbrev pub is_connect : Task → ℕ
is_connect (connect_task ip port) = 1
is_connect listen_task = 0
is_connect (accept_io_task t) = 0
is_connect (new_user_task ip port socket) = 0
is_connect (connect_io_task t) = 0

accept-outstanding :
    (w : Winsock) (result : Bool) (t : AcceptTask)
    → (if (accept_run w result t).0 then 1 else 0) ≡ outstanding (accept_run w result t).2
unfolding accept_run accept_start accept_complete accept_result
accept-outstanding w result t = ground arith

connect-outstanding :
    (w : Winsock) (result : Bool) (t : ConnectTask) {kept : Bool} {t' : ConnectTask}
    {acts : List Act}
    → connect_io_run w result t ≡ some (kept, t', acts)
    → (if kept then 1 else 0) ≡ outstanding acts
unfolding connect_io_run connect_start connect_complete connect_socket
connect-outstanding w result t e = ground arith

-- The tasks of a table whose ids are in order: a run that reaches a result keeps the task just when
-- an overlapped call of it has a completion to come, but for the task of `Connect`, which is kept
-- although no call is under way.
pub kept_lem :
    (w : Winsock) (result : Bool) (t : Task) (v : Server NetworkSession) {o : Outcome}
    → IsFresh v
    → run w result t v ≡ some o
    → (if o.kept then 1 else 0) ≡ outstanding o.acts + is_connect t
unfolding run listen_run new_user_run connect_run
kept_lem w result listen_task v fresh e =
    ground (arith, (create-Created new_session v fresh).returns)
kept_lem w result (accept_io_task t) v fresh e = ground (arith, accept-outstanding w result t)
kept_lem w result (new_user_task ip port socket) v fresh e =
    ground (arith, (create-Created new_session v fresh).returns)
kept_lem w result (connect_task ip port) v fresh e =
    ground (arith, (create-Created new_session v fresh).returns)
kept_lem w result (connect_io_task t) v fresh e = elim (Option-cases (connect_io_run w result t)) [
  | inl null_owner ↦ absurd (cc)
  | inr ((kept, t', acts), returns) ↦ ground (arith, connect-outstanding w result t returns)
]

-- How often a socket is in the hands of an accept task.
abbrev pub holds : ℕ → AcceptTask → ℕ
holds x t = elim t.client_socket [ none ↦ 0 | some c ↦ if c == x then 1 else 0 ]

-- The client sockets that a run of the accept task forgets without closing them: the accepted one
-- when Winsock gives no peer for it, and the new one when AcceptEx is refused.
abbrev pub forgotten : ℕ → Winsock → Bool → AcceptTask → ℕ
forgotten x w result t =
    let unnamed : ℕ = if result then (elim w.remote [ none ↦ holds x t | some peer ↦ 0 ]) else 0 in
    let unused : ℕ = elim w.socket [
      | none ↦ 0
      | some c ↦ elim w.io [ refused ↦ if c == x then 1 else 0 | done ↦ 0 | pending ↦ 0 ]
    ] in
    switch_step t.step unused (unnamed + unused) 0

-- Each socket that an accept task with an owner has or opens in a run is closed, handed to a new
-- user's task, kept for the accept under way, or forgotten in one of the two ways above.
pub accept_sockets :
    (w : Winsock) (result : Bool) (t : AcceptTask) (s : NetworkSession) (x : ℕ)
    → t.owner ≡ some s
    → (t.step ≡ not_started) ⊎ (t.step ≡ running)
    → (t.step ≡ not_started → t.client_socket ≡ none)
    → let (kept, t', acts) = accept_run w result t in
      holds x t + opened x acts
      ≡ given_away x acts + (if kept then holds x t' else 0) + forgotten x w result t
unfolding accept_run accept_start accept_complete accept_result
accept_sockets w result t s x e step first = ground arith

lookup-modify :
    (id other : ℕ) (f : NetworkSession → NetworkSession) (l : List (ℕ × NetworkSession))
    → (lookup other (modify id f l) ≡ none) ↔ (lookup other l ≡ none)
unfolding lookup modify
lookup-modify id other f [] = (λ h. h, λ h. h)
lookup-modify id other f ((i, s) ∷ rest) =
    (ground (arith, lookup-modify id other f rest), ground (arith, lookup-modify id other f rest))

connect-keeps :
    (w : Winsock) (result : Bool) (t : ConnectTask) (x : ℕ) {kept : Bool} {t' : ConnectTask}
    {acts : List Act}
    → connect_io_run w result t ≡ some (kept, t', acts)
    → given_away x acts ≡ 0
unfolding connect_io_run connect_start connect_complete connect_socket
connect-keeps w result t x e = ground arith

-- Whatever comes of a connection that is being opened, a run of its task closes no socket, and the
-- table has the same session ids after it: where the connection fails and the task is deleted, the
-- session and its socket stay.
connect_io_stays :
    (w : Winsock) (result : Bool) (t : ConnectTask) (v : Server NetworkSession) (x id : ℕ)
    {o : Outcome}
    → run w result (connect_io_task t) v ≡ some o
    → (given_away x o.acts ≡ 0) × ((find_session id o.server ≡ none) ↔ (find_session id v ≡ none))
unfolding run find_session
connect_io_stays w result t v x id e = elim (Option-cases (connect_io_run w result t)) [
  | inl null_owner ↦ absurd (cc)
  | inr ((kept, t', acts), returns) ↦ (
    ground (arith, connect-keeps w result t x returns),
    (ground (arith, same_ids t'), ground (arith, same_ids t')),
  )
]
  where
    same_ids :
        (t' : ConnectTask)
        → (lookup id (share_socket t' v).sessions ≡ none) ↔ (lookup id v.sessions ≡ none)
    same_ids t' = elim (Option-cases t'.owner) [
      | inl e ↦ rw e (λ h. h, λ h. h)
      | inr (s, e) ↦
          rw e (lookup-modify s.session_id id (λ y. record y { socket = s.socket }) v.sessions)
    ]

-- ConnectIO connects to the port of the session, as an unsigned short, but for a name that is
-- resolved: then to the address that getaddrinfo gives, whatever the port of the session.
remote_address_lem :
    (w : Winsock) (s : NetworkSession)
    → ((remote_address w s).port ≡ s.port % 2 ^ 16)
      ⊎ ((c : ℕ) × (ip : List ℕ) × (a : Address) × (s.ip ≡ some (c ∷ ip))
          × (w.isalpha c ≡ true)
          × (w.getaddrinfo (c ∷ ip) ≡ some a)
          × (remote_address w s ≡ a))
unfolding remote_address
remote_address_lem w s = elim (Option-cases s.ip) [
  | inl e ↦ inl (ground arith)
  | inr (text, e) ↦ named text e
]
  where
    named :
        (text : List ℕ)
        → s.ip ≡ some text
        → ((remote_address w s).port ≡ s.port % 2 ^ 16)
          ⊎ ((c : ℕ) × (ip : List ℕ) × (a : Address) × (s.ip ≡ some (c ∷ ip))
              × (w.isalpha c ≡ true)
              × (w.getaddrinfo (c ∷ ip) ≡ some a)
              × (remote_address w s ≡ a))
    named [] e = inl (ground arith)
    named (c ∷ ip) e = elim (Bool-cases (w.isalpha c)) [
      | inr numeric ↦ inl (ground arith)
      | inl name ↦ elim (Option-cases (w.getaddrinfo (c ∷ ip))) [
        | inl unresolved ↦ inl (ground arith)
        | inr (a, found) ↦ inr (c, ip, a, e, name, found, ground arith)
      ]
    ]
