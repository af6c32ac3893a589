-- ===== src/Tasks/Defs.antt =====
-- What the tasks share: sessions, what Winsock answers, and what they do outside the session table.
use mmoserver.Shared.{ℕ, ◌+◌, Bool, Option, none, some, List, [], ◌∷◌, ◌==◌, if◌then◌else◌}
use mmoserver.Receive.Defs.{IoResult, done, pending, refused}
use mmoserver.Sessions.{Server}

-- An address and a port of IPv4.
pub record Address : Type 0 where
  pub addr : ℕ
  pub port : ℕ

-- NetworkSession, as far as the tasks read and write it. A string is the list of its bytes; `none`
-- is a socket, or a string, that nothing was written to.
pub record NetworkSession : Type 0 where
  pub session_id : ℕ
  pub socket : Option ℕ
  pub ip : Option (List ℕ)
  pub port : ℕ

-- The constructor.
abbrev pub new_session : ℕ → NetworkSession
new_session id = record { session_id = id; socket = none; ip = some []; port = 0 }

-- The answers of Winsock in one call of `Run`: `socket` is `none` for INVALID_SOCKET, `io` what is
-- said of an overlapped call, and `remote` the peer that GetAcceptExSockaddrs gives, with its
-- address in text if inet_ntop could write it.
pub record Winsock : Type 0 where
  pub socket : Option ℕ
  pub io : IoResult
  pub bound : Bool
  pub listening : Bool
  pub extension : Bool
  pub remote : Option (Option (List ℕ) × ℕ)
  pub getaddrinfo : List ℕ → Option Address
  pub inet_pton : List ℕ → ℕ
  pub isalpha : ℕ → Bool

-- The tasks that are posted.
pub data Posted : Type 0 where
  accept_io : (session_id : ℕ) → Posted
  new_user : (ip : Option (List ℕ)) → (port : ℕ) → (socket : ℕ) → Posted
  connect_io : (session_id : ℕ) → Posted
  receive_io : (session_id : ℕ) → Posted

-- What a task does outside the session table, in order. An overlapped call carries what Winsock
-- said of it.
pub data Act : Type 0 where
  open_socket : (socket : ℕ) → Act
  close_socket : (socket : ℕ) → Act
  register : (socket : ℕ) → Act
  set_option : (socket : ℕ) → Act
  bind : (socket : ℕ) → Act
  listen : (socket : ℕ) → Act
  accept_ex : (listener : Option ℕ) → (socket : ℕ) → IoResult → Act
  connect_ex : (socket : ℕ) → Address → IoResult → Act
  send_ack : (session_id : ℕ) → Act
  post : Posted → Act

-- How many overlapped calls of a run have a completion to come.
abbrev pub accepted : IoResult → ℕ
accepted done = 1
accepted pending = 1
accepted refused = 0

abbrev pub outstanding : List Act → ℕ
outstanding [] = 0
outstanding (accept_ex l s r ∷ acts) = accepted r + outstanding acts
outstanding (connect_ex s a r ∷ acts) = accepted r + outstanding acts
outstanding (open_socket s ∷ acts) = outstanding acts
outstanding (close_socket s ∷ acts) = outstanding acts
outstanding (register s ∷ acts) = outstanding acts
outstanding (set_option s ∷ acts) = outstanding acts
outstanding (bind s ∷ acts) = outstanding acts
outstanding (listen s ∷ acts) = outstanding acts
outstanding (send_ack s ∷ acts) = outstanding acts
outstanding (post p ∷ acts) = outstanding acts

-- How often socket `x` was opened, and how often it was closed or handed to another task.
abbrev pub opened : ℕ → List Act → ℕ
opened x [] = 0
opened x (open_socket s ∷ acts) = (if s == x then 1 else 0) + opened x acts
opened x (close_socket s ∷ acts) = opened x acts
opened x (register s ∷ acts) = opened x acts
opened x (set_option s ∷ acts) = opened x acts
opened x (bind s ∷ acts) = opened x acts
opened x (listen s ∷ acts) = opened x acts
opened x (accept_ex l s r ∷ acts) = opened x acts
opened x (connect_ex s a r ∷ acts) = opened x acts
opened x (send_ack s ∷ acts) = opened x acts
opened x (post p ∷ acts) = opened x acts

abbrev pub given_away : ℕ → List Act → ℕ
given_away x [] = 0
given_away x (close_socket s ∷ acts) = (if s == x then 1 else 0) + given_away x acts
given_away x (post (new_user ip port s) ∷ acts) = (if s == x then 1 else 0) + given_away x acts
given_away x (post (accept_io id) ∷ acts) = given_away x acts
given_away x (post (connect_io id) ∷ acts) = given_away x acts
given_away x (post (receive_io id) ∷ acts) = given_away x acts
given_away x (open_socket s ∷ acts) = given_away x acts
given_away x (register s ∷ acts) = given_away x acts
given_away x (set_option s ∷ acts) = given_away x acts
given_away x (bind s ∷ acts) = given_away x acts
given_away x (listen s ∷ acts) = given_away x acts
given_away x (accept_ex l s r ∷ acts) = given_away x acts
given_away x (connect_ex s a r ∷ acts) = given_away x acts
given_away x (send_ack s ∷ acts) = given_away x acts

-- A write to the session that stands in the table under `id`.
unfoldable pub modify :
    ℕ → (NetworkSession → NetworkSession) → List (ℕ × NetworkSession) → List (ℕ × NetworkSession)
modify id f [] = []
modify id f ((i, s) ∷ rest) =
    let others = modify id f rest in if i == id then (i, f s) ∷ rest else (i, s) ∷ others

abbrev pub modify_session :
    ℕ → (NetworkSession → NetworkSession) → Server NetworkSession → Server NetworkSession
modify_session id f v = record v { sessions = modify id f v.sessions }
