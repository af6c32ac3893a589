-- ===== src/Shared/Bytes.antt =====
-- Facts about bytes, checked value by value.
use Prim.Native.Nat.{ℕ, zero, suc, ◌<◌, ◌≤◌, ◌+◌, bit_xor}
use mathlib.Core.Path.{◌≡◌, refl}
use mathlib.Core.Logic.{◌≢◌}
use mathlib.Core.Bool.{Bool, true, not, ◌&&◌, ◌||◌}
use native.Mathlib.Omega.{arith}
use mmoserver.Shared.Tests.{◌==◌, ltb}

-- The test gives true on the `n` numbers from `k` on.
unfoldable pub holds_on : (ℕ → Bool) → ℕ → ℕ → Bool
holds_on test k zero = true
holds_on test k (suc n) = let later = holds_on test (suc k) n in test k && later

pub holds_on-at :
    (test : ℕ → Bool) (x k n : ℕ) → k ≤ x → x < k + n → holds_on test k n ≡ true → test x ≡ true
unfolding holds_on
holds_on-at test x k zero le lt h = absurd (omega arith)
holds_on-at test x k (suc n) le lt h = ground (arith, holds_on-at test x (suc k) n)

-- What is claimed of a byte and a key.
returns : ℕ → ℕ → Bool
returns key byte = let mixed = bit_xor byte key in ltb mixed 256 && (bit_xor mixed key == byte)

every_key : holds_on (λ key. holds_on (returns key) 0 256) 0 256 ≡ true
unfolding holds_on returns
every_key = refl

-- On bytes, the exclusive or with one key twice gives the byte back, and stays a byte.
pub bit_xor-bit_xor :
    (x k : ℕ) → x < 256 → k < 256 → (bit_xor (bit_xor x k) k ≡ x) × (bit_xor x k < 256)
unfolding returns
bit_xor-bit_xor x k hx hk =
    let row : holds_on (returns k) 0 256 ≡ true =
      holds_on-at (λ key. holds_on (returns key) 0 256) k 0 256 (omega arith) hk every_key in
    ground (arith, holds_on-at (returns k) x 0 256 (omega arith) hx row)

changes : ℕ → ℕ → Bool
changes key byte = (key == 0) || not (bit_xor byte key == byte)

every_change : holds_on (λ key. holds_on (changes key) 0 256) 0 256 ≡ true
unfolding holds_on changes
every_change = refl

-- A key other than 0 changes every byte.
pub bit_xor-changes : (x k : ℕ) → x < 256 → k < 256 → 0 < k → bit_xor x k ≢ x
unfolding changes
bit_xor-changes x k hx hk positive =
    let row : holds_on (changes k) 0 256 ≡ true =
      holds_on-at (λ key. holds_on (changes key) 0 256) k 0 256 (omega arith) hk every_change in
    ground (arith, holds_on-at (changes k) x 0 256 (omega arith) hx row)
