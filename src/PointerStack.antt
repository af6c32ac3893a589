-- ===== src/PointerStack.antt =====
-- PointerStack of ServerCore/Utill/PointerStack.h: a stack of at most `default_size` pointers, which
-- the free chunks of an ObjectPool are kept in. `m_top` starts at 0 and is decreased only when it
-- is positive, so it is a natural number.
mod Tests
use mmoserver.Shared.{
  ℕ, zero, suc, ◌+◌, ◌-◌, ◌≤◌, ◌<◌, ◌≡◌, ◌⊎◌, inl, inr, refl, Bool, Option, none, some, List, [],
  ◌∷◌, ltb, ◌==◌, arith, length, ap, dec_lt, ℕ_discrete, if◌then◌else◌, true, ◌↔◌, sym,
}
use mmoserver.Families.{assign}

pub record PointerStack {ℓ} (A : Type ℓ) : Type ℓ where
  pub top : ℕ
  pub stack : ℕ → A

module _ {ℓ} {A : Type ℓ} where
  -- The constructor, over the pointers that the array comes with.
  abbrev pub new : (ℕ → A) → PointerStack A
  new values = record { top = 0; stack = values }

  unfoldable pub full : ℕ → PointerStack A → Bool
  full default_size s = ltb (default_size - 1) s.top

  unfoldable pub empty : PointerStack A → Bool
  empty s = s.top == 0

  abbrev pub size : PointerStack A → ℕ
  size s = s.top

  unfoldable pub push : ℕ → PointerStack A → A → Option (PointerStack A)
  unfolding full
  push default_size s x =
      if full default_size s
      then none
      else some (record { top = s.top + 1; stack = assign s.stack s.top x })

  -- `none` is a null pointer.
  unfoldable pub pop : PointerStack A → Option A × PointerStack A
  pop s =
      if s.top == 0 then (none, s) else (some (s.stack (s.top - 1)), record s { top = s.top - 1 })

  -- The pointers held, the newest first.
  abbrev below : (ℕ → A) → ℕ → List A
  below stack zero = []
  below stack (suc n) = stack n ∷ below stack n

  abbrev pub contents : PointerStack A → List A
  contents s = below s.stack s.top

  below-assign :
      (stack : ℕ → A) (k n : ℕ) (x : A) → n ≤ k → below (assign stack k x) n ≡ below stack n
  below-assign stack k zero x h = refl
  below-assign stack k (suc n) x h = ground (arith, below-assign stack k n x)

  length-below : (stack : ℕ → A) (n : ℕ) → length (below stack n) ≡ n
  length-below stack zero = refl
  length-below stack (suc n) = ground (arith, length-below stack n)

  -- `Push` puts the pointer on top of those held, and refuses it when `default_size` are held.
  pub push_lem :
      (default_size : ℕ) (s : PointerStack A) (x : A)
      → 0 < default_size
      → ((default_size ≤ length (contents s)) × (push default_size s x ≡ none))
        ⊎ ((s' : PointerStack A) × (push default_size s x ≡ some s')
            × (contents s' ≡ x ∷ contents s)
            × (length (contents s') ≤ default_size))
  unfolding push full
  push_lem default_size s x h = elim (dec_lt (default_size - 1) s.top) [
    | yes is_full ↦ inl (ground (arith, length-below s.stack s.top), ground arith)
    | no room ↦ inr (
      record { top = s.top + 1; stack = assign s.stack s.top x },
      ground arith,
      ground (arith, below-assign s.stack s.top s.top x),
      ground (arith, length-below (assign s.stack s.top x) (s.top + 1)),
    )
  ]

  -- `Pop` takes the newest pointer off, and gives null when none is held.
  pub pop_lem :
      (s : PointerStack A)
      → ((contents s ≡ []) × (pop s ≡ (none, s)))
        ⊎ ((x : A) × (s' : PointerStack A) × (pop s ≡ (some x, s'))
            × (contents s ≡ x ∷ contents s'))
  unfolding pop
  pop_lem s = elim (ℕ_discrete s.top 0) [
    | yes none_held ↦ inl (ap (below s.stack) none_held, ground arith)
    | no some_held ↦
        let held : s.top ≡ suc (s.top - 1) = omega arith in
        inr
          (s.stack (s.top - 1), record s { top = s.top - 1 }, ground arith, ap (below s.stack) held)
  ]

  -- On a stack with a positive bound Push puts the pointer on top of those held, at most the bound, or
  -- refuses it when as many as the bound are held; Pop takes the newest pointer off, or gives null and
  -- changes nothing when none is held; and Size, Empty and Full say how many are held.
  pub stack_lem :
      (default_size : ℕ) (s : PointerStack A) (x : A)
      → 0 < default_size
      → (((default_size ≤ length (contents s)) × (push default_size s x ≡ none))
          ⊎ ((s' : PointerStack A) × (push default_size s x ≡ some s')
              × (contents s' ≡ x ∷ contents s)
              × (length (contents s') ≤ default_size)))
        × (((contents s ≡ []) × (pop s ≡ (none, s)))
            ⊎ ((y : A) × (s' : PointerStack A) × (pop s ≡ (some y, s'))
                × (contents s ≡ y ∷ contents s')))
        × (size s ≡ length (contents s))
        × ((empty s ≡ true) ↔ (contents s ≡ []))
        × ((full default_size s ≡ true) ↔ (default_size ≤ length (contents s)))
  unfolding empty full
  stack_lem default_size s x h = (
    push_lem default_size s x h,
    pop_lem s,
    sym (length-below s.stack s.top),
    (
      λ e. let z : s.top ≡ 0 = ground arith in ap (below s.stack) z,
      λ e. ground (arith, length-below s.stack s.top, ap length e),
    ),
    (ground (arith, length-below s.stack s.top), ground (arith, length-below s.stack s.top)),
  )
