-- ===== src/Tasks/Connect.antt =====
-- NetworkTaskConnect and NetworkTaskConnectIO.
use mmoserver.Shared.{
  ℕ, ◌%◌, ◌^◌, Bool, true, false, Option, none, some, List, [], ◌∷◌, if◌then◌else◌,
}
use mmoserver.Receive.Defs.{EStep, running, switch_step, done, pending, refused}
use mmoserver.Sessions.{Server, create_new_session}
use mmoserver.Tasks.Defs.{
  Address, NetworkSession, new_session, Winsock, connect_io, receive_io, Act, open_socket, register,
  bind, connect_ex, post, modify_session,
}

-- 127.0.0.1
abbrev pub loopback : ℕ
loopback = 0x7f000001

-- The address that ConnectIO connects to: the port is that of the session, as an unsigned short,
-- unless a name is resolved. Where inet_pton cannot read the text the address is what it leaves.
unfoldable pub remote_address : Winsock → NetworkSession → Address
remote_address w s =
    let home : Address = record { addr = loopback; port = s.port % 2 ^ 16 } in
    elim s.ip [
      | none ↦ home
      | some [] ↦ home
      | some (c ∷ ip) ↦
          if w.isalpha c
          then (elim (w.getaddrinfo (c ∷ ip)) [ none ↦ home | some a ↦ a ])
          else record { addr = w.inet_pton (c ∷ ip); port = s.port % 2 ^ 16 }
    ]

pub record ConnectTask : Type 0 where
  pub owner : Option NetworkSession
  pub step : EStep

abbrev pub connect_session :
    List ℕ → ℕ → ℕ → Server NetworkSession → Server NetworkSession × List Act
connect_session ip port id v =
    (modify_session id (λ x. record x { ip = some ip; port = port }) v, post (connect_io id) ∷ [])

unfoldable pub connect_run :
    List ℕ → ℕ → Server NetworkSession → Bool × Server NetworkSession × List Act
unfolding create_new_session
connect_run ip port v = elim (create_new_session new_session v).0 [
  | none ↦ (false, (create_new_session new_session v).1, [])
  | some (id, s) ↦
      let (v', acts) = connect_session ip port id (create_new_session new_session v).1 in
      (true, v', acts)
]

-- The calls behind an open socket `c`: the function ConnectEx is asked for once, and `extension` says
-- that it is there.
unfoldable pub connect_socket : Winsock → NetworkSession → ℕ → Bool × List Act
unfolding remote_address
connect_socket w s c =
    if w.bound
    then (if w.extension
        then (elim w.io [
          | refused ↦ (
            false,
            open_socket c ∷ register c ∷ bind c ∷ connect_ex c (remote_address w s) refused ∷ [],
          )
          | done ↦ (
            true,
            open_socket c ∷ register c ∷ bind c ∷ connect_ex c (remote_address w s) done ∷ [],
          )
          | pending ↦ (
            true,
            open_socket c ∷ register c ∷ bind c ∷ connect_ex c (remote_address w s) pending ∷ [],
          )
        ])
        else (false, open_socket c ∷ register c ∷ bind c ∷ []))
    else (false, open_socket c ∷ register c ∷ bind c ∷ [])

-- NetworkTaskConnectIO::Start; `none` is a call through a null owner.
unfoldable pub connect_start : Winsock → ConnectTask → Option (Bool × ConnectTask × List Act)
unfolding connect_socket
connect_start w t = elim w.socket [
  | none ↦ some (false, record t { step = running }, [])
  | some c ↦ elim t.owner [
    | none ↦ none
    | some s ↦ some (
      (connect_socket w s c).0,
      record t { step = running; owner = some (record s { socket = some c }) },
      (connect_socket w s c).1,
    )
  ]
]

abbrev pub on_connected : NetworkSession → List Act
on_connected s = post (receive_io s.session_id) ∷ []

unfoldable pub connect_complete : Bool → ConnectTask → Bool × ConnectTask × List Act
connect_complete result t = elim t.owner [
  | none ↦ (false, t, [])
  | some s ↦ if result then (false, t, on_connected s) else (false, t, [])
]

unfoldable pub connect_io_run :
    Winsock → Bool → ConnectTask → Option (Bool × ConnectTask × List Act)
unfolding connect_start connect_complete
connect_io_run w result t =
    switch_step t.step (connect_start w t) (some (connect_complete result t)) (some (false, t, []))
