-- ===== src/Log/Text.antt =====
-- LogValue and GetLogText of ServerCore/Utill/LogManager.h.
use mmoserver.Shared.{ℕ, Bool, false, List, [], ◌∷◌, ◌++◌, ◌==◌, if◌then◌else◌}
use mmoserver.Log.{append_detail_info}

-- An argument is a text, or a value of another type, which `operator<<` writes as `text` says.
pub data Argument : Type 0 where
  string : (text : List ℕ) → Argument
  streamed : (text : List ℕ) → Argument

-- The rest of a text for the pattern "\\{.*\\}" behind the brace; a dot stands for no line end.
abbrev pub ends_object : List ℕ → Bool
ends_object [] = false
ends_object (c ∷ []) = c == b'}'
ends_object (c ∷ d ∷ text) =
    if c == 10 then false else if c == 13 then false else ends_object (d ∷ text)

abbrev pub is_object : List ℕ → Bool
is_object [] = false
is_object (c ∷ text) = if c == b'{' then ends_object text else false

abbrev pub wrap_text : List ℕ → List ℕ
wrap_text text = 39 ∷ (text ++ 39 ∷ [])

unfoldable pub log_value : Argument → List ℕ
log_value (string text) = if is_object text then text else wrap_text text
log_value (streamed text) = text

unfoldable pub add_args : List (List ℕ) → Argument → List Argument → List (List ℕ)
add_args storage value [] = storage ++ log_value value ∷ []
add_args storage value (next ∷ args) = add_args (storage ++ log_value value ∷ []) next args

-- With one argument at least; a call without arguments prints the format as it is.
unfoldable pub get_log_text : List ℕ → Argument → List Argument → List ℕ
get_log_text fmt value args = append_detail_info [] fmt (add_args [] value args)
