-- ===== src/PlayServer.antt =====
-- PlayServer of PlayServer/PlayServer.h and PlayServer.cpp, and MessageJob of
-- ServerCore/Network/MessageJob.h: the table of handlers, and what becomes of a message that a job
-- dispatcher hands over. Message ids are numbers, those of generated code are parameters; calls of
-- handlers are a list of values.
pub mod Laws
mod Tests
use mmoserver.Shared.{ℕ, Option, none, some, List, [], ◌∷◌, ◌++◌}
use mmoserver.Sessions.{lookup}

-- A MessageHolder: the type of the message and its value. All who have the holder share it.
pub record MessageHolder (Message : Type 0) : Type 0 where
  pub type : ℕ
  pub value : Message

pub data Handler : Type 0 where
  on_clgs_authen_req : Handler

-- A handler is called with the session and the message.
pub record Call (Message : Type 0) : Type 0 where
  pub handler : Handler
  pub session_id : ℕ
  pub msg : Message

-- `m_handlers`; `insert` on the map leaves a handler that is there.
abbrev pub insert : ℕ → Handler → Option Handler → List (ℕ × Handler) → List (ℕ × Handler)
insert id h none handlers = (id, h) ∷ handlers
insert id h (some old) handlers = handlers

unfoldable pub register_packet : ℕ → Handler → List (ℕ × Handler) → List (ℕ × Handler)
register_packet message_id h handlers = insert message_id h (lookup message_id handlers) handlers

-- The constructor, over the id of the message CLGS_AUTHEN_REQ.
unfoldable pub new : ℕ → List (ℕ × Handler)
new clgs_authen_req = register_packet clgs_authen_req on_clgs_authen_req []

module _ {Message : Type 0} (no_type : ℕ) where
  -- The function that RegisterPacket makes of a handler: it takes the message out of the holder, whose
  -- type gets the id NONE.
  abbrev pub handler_func :
      ℕ → MessageHolder Message → Option Handler → MessageHolder Message × List (Call Message)
  handler_func key holder none = (holder, [])
  handler_func key holder (some h) = (
    record holder { type = no_type },
    record { handler = h; session_id = key; msg = holder.value } ∷ [],
  )

  unfoldable pub main_dispatch :
      List (ℕ × Handler) → ℕ → MessageHolder Message → MessageHolder Message × List (Call Message)
  main_dispatch handlers key holder = handler_func key holder (lookup holder.type handlers)

  -- MessageJob::Excute of jobs that share one holder, one after the other: the session ids of the jobs.
  unfoldable pub execute :
      List (ℕ × Handler)
      → List ℕ
      → MessageHolder Message
      → MessageHolder Message × List (Call Message)
  execute handlers [] holder = (holder, [])
  execute handlers (session_id ∷ rest) holder =
      let (holder', calls) = main_dispatch handlers session_id holder in
      let (last, more) = execute handlers rest holder' in (last, calls ++ more)
