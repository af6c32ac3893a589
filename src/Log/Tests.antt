-- ===== src/Log/Tests.antt =====
-- The format "a%b%" with one value.
use mmoserver.Shared.{◌≡◌, refl, [], ◌∷◌}
use mmoserver.Log.{append_detail_info}
use mmoserver.Log.Text.{string, log_value, get_log_text, add_args}

-- A string that has a byte 0 loses what is behind it, and its second quotation mark.
cut_string : get_log_text (b'%' ∷ []) (string (b'7' ∷ 0 ∷ b'8' ∷ [])) [] ≡ 39 ∷ b'7' ∷ []
unfolding get_log_text add_args append_detail_info log_value
cut_string = refl
