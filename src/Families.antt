-- ===== src/Families.antt =====
-- Families indexed by a number, as the threads of a program are: a write at one index, weights
-- summed over the first members, and the lists that the members carry.
use mmoserver.Shared.{
  ◌≢◌, Bool-cases, inl, inr, ℕ, zero, suc, ◌+◌, ◌≤◌, ◌<◌, ◌≡◌, refl, List, [], ◌++◌, ◌==◌,
  if◌then◌else◌, append-nil, arith, dec_lt, ap₂, ◌∙◌, ap, ◌∷◌,
}

-- A write at one index of a family.
abbrev pub assign {ℓ} : {A : Type ℓ} → (ℕ → A) → ℕ → A → ℕ → A
assign f i a j = if i == j then a else f j

pub assign-elim {ℓ κ} :
    {A : Type ℓ} (P : A → Type κ) (f : ℕ → A) (i j : ℕ) (a : A)
    → (i ≡ j → P a)
    → (i ≢ j → P (f j))
    → P (assign f i a j)
assign-elim P f i j a here there = elim (Bool-cases (i == j)) [
  | inl e ↦ rw e (here (ground arith))
  | inr e ↦ rw e (there (λ same. ground arith))
]

unfoldable pub sum {ℓ} : {A : Type ℓ} → (A → ℕ) → ℕ → (ℕ → A) → ℕ
sum weight zero f = 0
sum weight (suc n) f = sum weight n f + weight (f n)

module _ {ℓ} {A : Type ℓ} (weight : A → ℕ) where
  pub sum-assign_of_le :
      (n : ℕ) (f : ℕ → A) (i : ℕ) (a : A) → n ≤ i → sum weight n (assign f i a) ≡ sum weight n f
  unfolding sum
  sum-assign_of_le zero f i a h = refl
  sum-assign_of_le (suc n) f i a h = ground (arith, sum-assign_of_le n f i a)

  pub sum-assign :
      (n : ℕ) (f : ℕ → A) (i : ℕ) (a : A)
      → i < n
      → sum weight n (assign f i a) + weight (f i) ≡ sum weight n f + weight a
  unfolding sum
  sum-assign zero f i a h = absurd (omega arith)
  sum-assign (suc n) f i a h = elim (dec_lt i n) [
    | yes below ↦ ground (arith, sum-assign n f i a below)
    | no last ↦ ground (arith, sum-assign_of_le n f i a)
  ]

  pub weight-le-sum : (n : ℕ) (f : ℕ → A) (i : ℕ) → i < n → weight (f i) ≤ sum weight n f
  unfolding sum
  weight-le-sum zero f i h = absurd (omega arith)
  weight-le-sum (suc n) f i h = ground (arith, weight-le-sum n f i)

  pub sum-eq-zero : (n : ℕ) (f : ℕ → A) → ((i : ℕ) → weight (f i) ≡ 0) → sum weight n f ≡ 0
  unfolding sum
  sum-eq-zero zero f h = refl
  sum-eq-zero (suc n) f h = omega (arith, sum-eq-zero n f h, h n)

  pub sum-eq-zero_below :
      (n : ℕ) (f : ℕ → A) → ((i : ℕ) → i < n → weight (f i) ≡ 0) → sum weight n f ≡ 0
  unfolding sum
  sum-eq-zero_below zero f h = refl
  sum-eq-zero_below (suc n) f h =
      omega (arith, sum-eq-zero_below n f (λ i lt. h i (omega arith)), h n (omega arith))

  pub sum-last : (n : ℕ) (f : ℕ → A) → sum weight (n + 1) f ≡ sum weight n f + weight (f n)
  unfolding sum
  sum-last n f = let next : n + 1 ≡ suc n = omega arith in ap (λ k. sum weight k f) next

  -- Two different members weigh at most as much as all.
  pub weights-le-sum :
      (n : ℕ) (f : ℕ → A) (i j : ℕ) → i < j → j < n → weight (f i) + weight (f j) ≤ sum weight n f
  unfolding sum
  weights-le-sum zero f i j h lt = absurd (omega arith)
  weights-le-sum (suc n) f i j h lt = ground (arith, weights-le-sum n f i j, weight-le-sum n f i)

  -- A second weight that only members with the first have.
  module _ (other : A → ℕ) (light : (a : A) → weight a ≡ 0 → other a ≡ 0) where
    pub other-eq-zero : (n : ℕ) (f : ℕ → A) → sum weight n f ≡ 0 → sum other n f ≡ 0
    unfolding sum
    other-eq-zero zero f h = refl
    other-eq-zero (suc n) f h =
        omega (arith, other-eq-zero n f (omega arith), light (f n) (omega arith))

    -- The one member with the first has all of the second.
    pub other-alone :
        (n : ℕ) (f : ℕ → A) (i : ℕ)
        → i < n
        → sum weight n f ≤ weight (f i)
        → sum other n f ≡ other (f i)
    unfolding sum
    other-alone zero f i h le = absurd (omega arith)
    other-alone (suc n) f i h le = elim (dec_lt i n) [
      | yes below ↦
          let rest : weight (f n) ≡ 0 = omega (arith, weight-le-sum n f i below) in
          omega (
            arith,
            other-alone n f i below (omega (arith, weight-le-sum n f i below)),
            light (f n) rest,
          )
      | no last ↦
          let same : i ≡ n = omega arith in
          let none_before : sum weight n f ≡ 0 = omega (arith, ap (λ k. weight (f k)) same) in
          omega (arith, other-eq-zero n f none_before, ap (λ k. other (f k)) same)
    ]

  -- Lists that only members with a weight carry, one after the other.
  module _ {κ} {B : Type κ} (carry : A → List B) where
    pub gather : ℕ → (ℕ → A) → List B
    gather zero f = []
    gather (suc n) f = gather n f ++ carry (f n)

    gather-assign_of_le :
        (n : ℕ) (f : ℕ → A) (i : ℕ) (a : A) → n ≤ i → gather n (assign f i a) ≡ gather n f
    unfolding gather
    gather-assign_of_le zero f i a h = refl
    gather-assign_of_le (suc n) f i a h = ground (arith, gather-assign_of_le n f i a)

    -- A write that carries the same list.
    pub gather-assign :
        (n : ℕ) (f : ℕ → A) (i : ℕ) (a : A)
        → carry a ≡ carry (f i)
        → gather n (assign f i a) ≡ gather n f
    unfolding gather
    gather-assign zero f i a h = refl
    gather-assign (suc n) f i a h = ground (arith, gather-assign n f i a h)

    module _ (light : (a : A) → weight a ≡ 0 → carry a ≡ []) where
      pub gather-nil : (n : ℕ) (f : ℕ → A) → sum weight n f ≡ 0 → gather n f ≡ []
      unfolding sum gather
      gather-nil zero f h = refl
      gather-nil (suc n) f h = ap₂ ◌++◌ (gather-nil n f (omega arith)) (light (f n) (omega arith))

      -- The one member with a weight carries all.
      pub gather-alone :
          (n : ℕ) (f : ℕ → A) (i : ℕ)
          → i < n
          → sum weight n f ≤ weight (f i)
          → gather n f ≡ carry (f i)
      unfolding sum gather
      gather-alone zero f i h le = absurd (omega arith)
      gather-alone (suc n) f i h le = elim (dec_lt i n) [
        | yes below ↦
            ap₂ ◌++◌ (gather-alone n f i below (omega (arith, weight-le-sum n f i below)))
              (light (f n) (omega (arith, weight-le-sum n f i below)))
            ∙ append-nil (carry (f i))
        | no last ↦
            let same : i ≡ n = omega arith in
            let none_before : sum weight n f ≡ 0 = omega (arith, ap (λ k. weight (f k)) same) in
            rw same (ap₂ ◌++◌ (gather-nil n f none_before) refl)
      ]

-- How often a number stands in a list.
abbrev pub occurrences : ℕ → List ℕ → ℕ
occurrences q [] = 0
occurrences q (x ∷ xs) = (if x == q then 1 else 0) + occurrences q xs

pub occurrences-append :
    (q : ℕ) (xs ys : List ℕ) → occurrences q (xs ++ ys) ≡ occurrences q xs + occurrences q ys
occurrences-append q [] ys = omega arith
occurrences-append q (x ∷ xs) ys = omega (arith, occurrences-append q xs ys)
