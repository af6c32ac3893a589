-- ===== src/Cipher/Laws.antt =====
-- The bytes of a buffer under NetworkServer::Convert (ServerCore/Network/NetworkServer.cpp).
use mmoserver.Shared.{
  ℕ, zero, suc, ◌+◌, ◌-◌, ◌≤◌, ◌<◌, ◌≡◌, refl, bit_xor, ltb, leb, if◌then◌else◌, ◌⊎◌, ◌&&◌, arith,
  dec_lt, zero-add, Memory, true,
}
use mmoserver.Shared.Bytes.{bit_xor-bit_xor}
use mmoserver.Shared.Bytes.{holds_on, holds_on-at}
use mmoserver.Shared.{Bool, get_or, ◌*◌, ◌%◌}
use mmoserver.Cipher.{g_key, next_key, poke, convert_loop, convert}

-- The key after `n` rounds.
abbrev pub keys : ℕ → ℕ
keys zero = 0
keys (suc n) = next_key (keys n) n

pub keys-lt : (n : ℕ) → keys (suc n) < 256
unfolding next_key
keys-lt n = omega arith

-- The test that the key of round `r`, behind a key that is 0, is not 0.
moves_on : ℕ → Bool
moves_on r = ltb 0 ((get_or g_key r 0 * 253 + 195) % 256)

every_round : holds_on moves_on 0 16 ≡ true
unfolding holds_on moves_on
every_round = refl

-- Of two keys of the stream in succession one at least is not 0.
pub keys-suc : (n : ℕ) → keys n ≡ 0 → 0 < keys (suc n)
unfolding next_key moves_on
keys-suc n e =
    ground (arith, holds_on-at moves_on (n % 16) 0 16 (omega arith) (omega arith) every_round)

-- What one round leaves behind.
abbrev round : Memory → ℕ → ℕ → ℕ → Memory
round m place key n = poke m place (bit_xor (m place) (next_key key n))

convert_loop-out :
    (rounds n key i : ℕ) (m : Memory) (place : ℕ)
    → (i < place) ⊎ (place + rounds ≤ i)
    → convert_loop rounds n key m place i ≡ m i
unfolding convert_loop
convert_loop-out zero n key i m place h = refl
convert_loop-out (suc rounds) n key i m place h =
    ground
      (arith, convert_loop-out rounds (suc n) (next_key key n) i (round m place key n) (suc place))

convert_loop-in :
    (rounds n i : ℕ) (m : Memory) (place : ℕ)
    → place ≤ i
    → i < place + rounds
    → convert_loop rounds n (keys n) m place i ≡ bit_xor (m i) (keys (suc (n + (i - place))))
unfolding convert_loop
convert_loop-in zero n i m place le lt = absurd (omega arith)
convert_loop-in (suc rounds) n i m place le lt = elim (dec_lt place i) [
  | yes later ↦
      let same : suc n + (i - suc place) ≡ n + (i - place) = omega arith in
      ground (
        arith,
        same,
        convert_loop-in rounds (suc n) i (round m place (keys n) n) (suc place) (omega arith)
            (omega arith),
      )
  | no first ↦
      let here : i ≡ place = omega arith in
      let none_before : n + (i - place) ≡ n = omega arith in
      ground (
        arith,
        none_before,
        convert_loop-out rounds (suc n) (keys (suc n)) i (round m place (keys n) n) (suc place),
      )
]

-- Every byte of the buffer is combined with the key of its round, and no other byte changes.
pub convert_lem :
    (m : Memory) (place size i : ℕ)
    → convert m place size i ≡ (
        if leb place i && ltb i (place + size) then bit_xor (m i) (keys (suc (i - place))) else m i)
unfolding convert
convert_lem m place size i = ground (
  arith,
  zero-add (i - place),
  convert_loop-in size 0 i m place,
  convert_loop-out size 0 0 i m place,
)

-- Convert with one size twice gives every byte back, the buffer's and the others.
pub convert-convert :
    (m : Memory) (place size i : ℕ) → m i < 256 → convert (convert m place size) place size i ≡ m i
convert-convert m place size i byte = ground (
  arith,
  convert_lem (convert m place size) place size i,
  convert_lem m place size i,
  bit_xor-bit_xor (m i) (keys (suc (i - place))) byte (keys-lt (i - place)),
)

-- A receiver that has the bytes of the sender's buffer at another place gets the sender's text.
pub convert-moved :
    (m w : Memory) (here there size k : ℕ)
    → k < size
    → m (here + k) < 256
    → w (there + k) ≡ convert m here size (here + k)
    → convert w there size (there + k) ≡ m (here + k)
convert-moved m w here there size k lt byte e =
    let sent : here + k - here ≡ k = omega arith in
    let came : there + k - there ≡ k = omega arith in
    ground (
      arith,
      sent,
      came,
      convert_lem w there size (there + k),
      convert_lem m here size (here + k),
      bit_xor-bit_xor (m (here + k)) (keys (suc k)) byte (keys-lt k),
    )
