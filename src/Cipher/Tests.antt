-- ===== src/Cipher/Tests.antt =====
-- The cipher at concrete bytes.
use mmoserver.Shared.{◌%◌, ◌+◌, ◌≡◌, refl, arith, Memory}
use mmoserver.Cipher.{convert, next_key}
use mmoserver.Cipher.Laws.{keys, convert-convert}

-- Bytes 65, 66, 67, …
abbrev text : Memory
text i = (65 + i) % 256

first_key : keys 1 ≡ 220
unfolding next_key
first_key = refl

convert-convert_example : convert (convert text 4 3) 4 3 5 ≡ text 5
convert-convert_example = convert-convert text 4 3 5 (omega arith)
