-- ===== src/Tasks/Accept.antt =====
-- NetworkTaskAcceptIO, NetworkTaskNewUser and NetworkTaskListen.
use mmoserver.Shared.{ℕ, Bool, true, false, Option, none, some, List, [], ◌∷◌, ◌++◌, if◌then◌else◌}
use mmoserver.Receive.Defs.{EStep, running, switch_step, done, pending, refused}
use mmoserver.Sessions.{Server, create_new_session}
use mmoserver.Tasks.Defs.{
  NetworkSession, new_session, Winsock, accept_io, new_user, receive_io, Act, open_socket,
  close_socket, register, set_option, bind, listen, accept_ex, send_ack, post, modify_session,
}

-- The owner is the listening session, `none` a null pointer.
pub record AcceptTask : Type 0 where
  pub owner : Option NetworkSession
  pub step : EStep
  pub client_socket : Option ℕ

-- The result is whether the task is to be kept.
unfoldable pub accept_start : Winsock → AcceptTask → Bool × AcceptTask × List Act
accept_start w t = elim t.owner [
  | none ↦ (false, record t { step = running }, [])
  | some s ↦ elim w.socket [
    | none ↦ (false, record t { step = running; client_socket = none }, [])
    | some c ↦ elim w.io [
      | refused ↦ (
        false,
        record t { step = running; client_socket = some c },
        open_socket c ∷ accept_ex s.socket c refused ∷ [],
      )
      | done ↦ (
        true,
        record t { step = running; client_socket = some c },
        open_socket c ∷ accept_ex s.socket c done ∷ [],
      )
      | pending ↦ (
        true,
        record t { step = running; client_socket = some c },
        open_socket c ∷ accept_ex s.socket c pending ∷ [],
      )
    ]
  ]
]

-- What is done with the client socket when the accept has completed.
unfoldable pub accept_result : Winsock → Bool → ℕ → List Act
accept_result w false c = close_socket c ∷ []
accept_result w true c = elim w.remote [
  | none ↦ set_option c ∷ []
  | some (ip, port) ↦ set_option c ∷ post (new_user ip port c) ∷ []
]

-- `closesocket` and `setsockopt` of INVALID_SOCKET do nothing; a peer is not given for it.
unfoldable pub accept_complete : Winsock → Bool → AcceptTask → Bool × AcceptTask × List Act
unfolding accept_start accept_result
accept_complete w result t = elim t.owner [
  | none ↦ (false, t, [])
  | some s ↦
      let acts : List Act = elim t.client_socket [
        | none ↦ []
        | some c ↦ accept_result w result c
      ] in
      let (kept, t', more) = accept_start w (record t { client_socket = none }) in
      (kept, t', acts ++ more)
]

unfoldable pub accept_run : Winsock → Bool → AcceptTask → Bool × AcceptTask × List Act
unfolding accept_start accept_complete
accept_run w result t =
    switch_step t.step (accept_start w t) (accept_complete w result t) (false, t, [])

abbrev pub on_accept :
    Option (List ℕ) → ℕ → ℕ → ℕ → Server NetworkSession → Server NetworkSession × List Act
on_accept ip port socket id v = (
  modify_session id (λ x. record x { ip = ip; port = port; socket = some socket }) v,
  register socket ∷ send_ack id ∷ post (receive_io id) ∷ [],
)

unfoldable pub new_user_run :
    Option (List ℕ) → ℕ → ℕ → Server NetworkSession → Bool × Server NetworkSession × List Act
unfolding create_new_session
new_user_run ip port socket v = elim (create_new_session new_session v).0 [
  | none ↦ (false, (create_new_session new_session v).1, [])
  | some (id, s) ↦
      let (v', acts) = on_accept ip port socket id (create_new_session new_session v).1 in
      (false, v', acts)
]

-- Of the socket options those for the linger time and for small packets are set.
abbrev pub listen_session : Winsock → ℕ → Server NetworkSession → Server NetworkSession × List Act
listen_session w id v = elim w.socket [
  | none ↦ (v, [])
  | some c ↦
      let opening = open_socket c ∷ set_option c ∷ set_option c ∷ register c ∷ bind c ∷ [] in
      (
        modify_session id (λ x. record x { socket = some c }) v,
        if w.bound
            then (if w.listening
                then opening ++ listen c ∷ post (accept_io id) ∷ []
                else opening ++ listen c ∷ [])
            else opening,
      )
]

unfoldable pub listen_run :
    Winsock → Server NetworkSession → Bool × Server NetworkSession × List Act
unfolding create_new_session
listen_run w v = elim (create_new_session new_session v).0 [
  | none ↦ (false, (create_new_session new_session v).1, [])
  | some (id, s) ↦
      let (v', acts) = listen_session w id (create_new_session new_session v).1 in (false, v', acts)
]
