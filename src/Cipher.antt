-- ===== src/Cipher.antt =====
-- NetworkServer::Convert of ServerCore/Network/NetworkServer.cpp: the exclusive or of a buffer with
-- a key stream, in place.
pub mod Laws
mod Tests
use mmoserver.Shared.{
  ℕ, zero, suc, ◌+◌, ◌*◌, ◌%◌, bit_xor, List, [], ◌∷◌, ◌==◌, if◌then◌else◌, get_or, Memory,
}

-- "MMORPG - MOBIRIX"
abbrev pub g_key : List ℕ
g_key =
    b'M' ∷ b'M' ∷ b'O' ∷ b'R' ∷ b'P' ∷ b'G' ∷ b' ' ∷ b'-' ∷ b' ' ∷ b'M' ∷ b'O' ∷ b'B' ∷ b'I' ∷ b'R'
    ∷ b'I' ∷ b'X' ∷ []

-- A `uint8_t` assigned from an `int` keeps its lowest eight bits.
unfoldable pub next_key : ℕ → ℕ → ℕ
next_key key n = ((key + get_or g_key (n % 16) 0) * 253 + 195) % 256

abbrev pub poke : Memory → ℕ → ℕ → Memory
poke m i v j = if i == j then v else m j

-- The loop from round `n` on, over the rounds left.
unfoldable pub convert_loop : ℕ → ℕ → ℕ → Memory → ℕ → Memory
unfolding next_key
convert_loop zero n key m place = m
convert_loop (suc rounds) n key m place =
    convert_loop rounds (suc n) (next_key key n) (poke m place (bit_xor (m place) (next_key key n)))
      (suc place)

-- `Convert(m + place, size)`
unfoldable pub convert : Memory → ℕ → ℕ → Memory
unfolding convert_loop
convert m place size = convert_loop size 0 0 m place
