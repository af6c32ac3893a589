-- ===== src/Shared/Slices.antt =====
-- Raw memory: a pointer is a function from the offset to the byte there, `memcpy` on such pointers,
-- and the list of the bytes from one offset on.
use Prim.Native.Nat.{ℕ, zero, suc, ◌+◌, ◌-◌, ◌<◌}
use mathlib.Core.Path.{◌≡◌, refl, ap, ap₂, ◌∙◌}
use mathlib.Core.List.{List, [], ◌∷◌, ◌++◌}
use native.Mathlib.Omega.{arith}
use mmoserver.Shared.Tests.{ltb, leb, if◌then◌else◌}
use mmoserver.Shared.Lists.{length, get_or}

-- The memory from a pointer on.
abbrev pub Memory : Type 0
Memory = ℕ → ℕ

-- memcpy(dst + to, src + from, n)
unfoldable pub memcpy : Memory → ℕ → Memory → ℕ → ℕ → Memory
memcpy dst to src from n i =
    if leb to i then (if ltb i (to + n) then src (from + (i - to)) else dst i) else dst i

module _ {ℓ} {A : Type ℓ} where
  -- The `n` values from index `s` on.
  abbrev pub slice : (ℕ → A) → ℕ → ℕ → List A
  slice f s zero = []
  slice f s (suc n) = f s ∷ slice f (suc s) n

  pub length-slice : (f : ℕ → A) (s n : ℕ) → length (slice f s n) ≡ n
  length-slice f s zero = refl
  length-slice f s (suc n) = ap suc (length-slice f (suc s) n)

  pub slice-cong :
      (f g : ℕ → A) (s t n : ℕ)
      → ((k : ℕ) → k < n → f (s + k) ≡ g (t + k))
      → slice f s n ≡ slice g t n
  slice-cong f g s t zero h = refl
  slice-cong f g s t (suc n) h =
      ap₂ ◌∷◌ (ap f (omega arith) ∙ h 0 (omega arith) ∙ ap g (omega arith)) (
        slice-cong f g (suc s) (suc t) n
          λ k lt. ap f (omega arith) ∙ h (suc k) (omega arith) ∙ ap g (omega arith))

  pub slice-add : (f : ℕ → A) (s m n : ℕ) → slice f s (m + n) ≡ slice f s m ++ slice f (s + m) n
  slice-add f s zero n = ap₂ (λ a b. slice f a b) (omega arith) (omega arith)
  slice-add f s (suc m) n = rw (shift, suc_add) (ap (λ l. f s ∷ l) (slice-add f (suc s) m n))
    where
      shift : s + suc m ≡ suc s + m
      shift = omega arith

      suc_add : suc m + n ≡ suc (m + n)
      suc_add = omega arith

  pub get_or-slice : (f : ℕ → A) (s n k : ℕ) (d : A) → k < n → get_or (slice f s n) k d ≡ f (s + k)
  get_or-slice f s zero k d h = absurd (omega arith)
  get_or-slice f s (suc n) zero d h = ap f (omega arith)
  get_or-slice f s (suc n) (suc k) d h =
      get_or-slice f (suc s) n k d (omega arith) ∙ ap f (omega arith)
