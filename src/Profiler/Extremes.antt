-- ===== src/Profiler/Extremes.antt =====
-- The two greatest and the two smallest of the times that Profiler.cpp has added, and the others.
use mmoserver.Shared.{
  subst, sym, if-elim, dec_lt, ℕ, ◌+◌, ◌^◌, ◌<◌, ◌≤◌, ◌≡◌, List, [], ◌∷◌, if◌then◌else◌, arith,
  refl, ltb, drop, get_or, length, true,
}
use mmoserver.Profiler.Table.{max_int64, less, min_int64}

unfoldable pub insert : ℕ → List ℕ → List ℕ
insert w [] = w ∷ []
insert w (a ∷ l) = let rest = insert w l in if ltb w a then w ∷ a ∷ l else a ∷ rest

abbrev pub sort : List ℕ → List ℕ
sort [] = []
sort (w ∷ ws) = insert w (sort ws)

abbrev pub total : List ℕ → ℕ
total [] = 0
total (a ∷ l) = a + total l

abbrev pub last_or : ℕ → List ℕ → ℕ
last_or d [] = d
last_or d (a ∷ []) = a
last_or d (a ∷ b ∷ l) = last_or d (b ∷ l)

abbrev pub without_last : List ℕ → List ℕ
without_last [] = []
without_last (a ∷ []) = []
without_last (a ∷ b ∷ l) = a ∷ without_last (b ∷ l)

-- All but the first two and the last two.
abbrev pub middle : List ℕ → List ℕ
middle l = drop 2 (without_last (without_last l))

insert_below : (w a : ℕ) (l : List ℕ) → w < a → insert w (a ∷ l) ≡ w ∷ a ∷ l
unfolding insert
insert_below w a l lt = ground arith

insert_above : (w a : ℕ) (l : List ℕ) → ¬ (w < a) → insert w (a ∷ l) ≡ a ∷ insert w l
unfolding insert
insert_above w a l ge = ground arith

one_lem : (w : ℕ) → insert w [] ≡ w ∷ []
unfolding insert
one_lem w = refl

-- In order, and from `b` on.
abbrev pub IsFrom : ℕ → List ℕ → Type 0
IsFrom b [] = Unit
IsFrom b (a ∷ l) = (b ≤ a) × IsFrom a l

abbrev pub IsTime : List ℕ → Type 0
IsTime [] = Unit
IsTime (w ∷ ws) = (w < 2 ^ 63) × IsTime ws

insert-IsFrom : (b w : ℕ) (l : List ℕ) → b ≤ w → IsFrom b l → IsFrom b (insert w l)
unfolding insert
insert-IsFrom b w [] le h = (le, tt)
insert-IsFrom b w (a ∷ l) le h = elim (dec_lt w a) [
  | yes lt ↦ subst (IsFrom b) (sym (insert_below w a l lt)) (le, (omega arith, h.1))
  | no ge ↦
      subst (IsFrom b) (sym (insert_above w a l ge)) (h.0, insert-IsFrom a w l (omega arith) h.1)
]

pub sort-IsFrom : (ws : List ℕ) → IsFrom 0 (sort ws)
sort-IsFrom [] = tt
sort-IsFrom (w ∷ ws) = insert-IsFrom 0 w (sort ws) (omega arith) (sort-IsFrom ws)

insert-IsTime : (w : ℕ) (l : List ℕ) → w < 2 ^ 63 → IsTime l → IsTime (insert w l)
unfolding insert
insert-IsTime w [] lt h = (lt, tt)
insert-IsTime w (a ∷ l) lt h = if-elim IsTime (ltb w a) (lt, h) (h.0, insert-IsTime w l lt h.1)

pub sort-IsTime : (ws : List ℕ) → IsTime ws → IsTime (sort ws)
sort-IsTime [] h = tt
sort-IsTime (w ∷ ws) h = insert-IsTime w (sort ws) h.0 (sort-IsTime ws h.1)

-- The smallest,
pub first-insert :
    (w : ℕ) (l : List ℕ)
    → w < 2 ^ 63
    → IsTime l
    → get_or (insert w l) 0 max_int64
      ≡ (if less w (get_or l 0 max_int64) then w else get_or l 0 max_int64)
unfolding insert
first-insert w [] lt h = ground arith
first-insert w (a ∷ l) lt h = ground arith

-- the one behind it,
pub second-insert :
    (w : ℕ) (l : List ℕ)
    → w < 2 ^ 63
    → IsTime l
    → get_or (insert w l) 1 max_int64 ≡ (
        if less w (get_or l 0 max_int64)
        then get_or l 0 max_int64
        else (if less w (get_or l 1 max_int64) then w else get_or l 1 max_int64))
unfolding insert
second-insert w [] lt h = ground arith
second-insert w (a ∷ []) lt h = ground arith
second-insert w (a ∷ b ∷ l) lt h = ground arith

-- The last of a list in order is not below the first, nor is the one before the last.
last-IsFrom : (d a : ℕ) (l : List ℕ) → IsFrom a l → a ≤ last_or d (a ∷ l)
last-IsFrom d a [] h = omega arith
last-IsFrom d a (b ∷ l) h = omega (arith, last-IsFrom d b l h.1, h.0)

before-IsFrom :
    (d a b : ℕ) (l : List ℕ) → IsFrom a (b ∷ l) → a ≤ last_or d (without_last (a ∷ b ∷ l))
before-IsFrom d a b [] h = omega arith
before-IsFrom d a b (c ∷ l) h = omega (arith, before-IsFrom d b c l h.1, h.0)

last-cons : (d a w : ℕ) (l : List ℕ) → last_or d (a ∷ insert w l) ≡ last_or d (insert w l)
unfolding insert
last-cons d a w [] = refl
last-cons d a w (b ∷ l) = if-elim (λ k. last_or d (a ∷ k) ≡ last_or d k) (ltb w b) refl refl

before-cons :
    (d a w b c : ℕ) (l : List ℕ)
    → last_or d (without_last (a ∷ insert w (b ∷ c ∷ l)))
      ≡ last_or d (without_last (insert w (b ∷ c ∷ l)))
unfolding insert
before-cons d a w b c l =
    if-elim (λ k. last_or d (without_last (a ∷ k)) ≡ last_or d (without_last k)) (ltb w b) refl
      (if-elim (λ k. last_or d (without_last (a ∷ b ∷ k)) ≡ last_or d (without_last (b ∷ k)))
        (ltb w c) refl refl)

last-insert :
    (d w a : ℕ) (l : List ℕ)
    → IsFrom a l
    → last_or d (insert w (a ∷ l)) ≡ (if ltb (last_or d (a ∷ l)) w then w else last_or d (a ∷ l))
last-insert d w a [] o = elim (dec_lt w a) [
  | yes lt ↦ ground (arith, insert_below w a [] lt)
  | no ge ↦ ground (arith, insert_above w a [] ge, one_lem w)
]
last-insert d w a (b ∷ l) o = elim (dec_lt w a) [
  | yes lt ↦ ground (arith, insert_below w a (b ∷ l) lt, last-IsFrom d a (b ∷ l) o)
  | no ge ↦
      ground (arith, insert_above w a (b ∷ l) ge, last-cons d a w (b ∷ l), last-insert d w b l o.1)
]

before-insert :
    (d w a b : ℕ) (l : List ℕ)
    → IsFrom a (b ∷ l)
    → last_or d (without_last (insert w (a ∷ b ∷ l))) ≡ (
        if ltb (last_or d (a ∷ b ∷ l)) w
        then last_or d (a ∷ b ∷ l)
        else (if ltb (last_or d (without_last (a ∷ b ∷ l))) w
            then w
            else last_or d (without_last (a ∷ b ∷ l))))
before-insert d w a b [] o = elim (dec_lt w a) [
  | yes lt ↦ ground (arith, insert_below w a (b ∷ []) lt, o.0)
  | no ge ↦ elim (dec_lt w b) [
    | yes lt ↦ ground (arith, insert_above w a (b ∷ []) ge, insert_below w b [] lt)
    | no ge' ↦ ground (arith, insert_above w a (b ∷ []) ge, insert_above w b [] ge', one_lem w)
  ]
]
before-insert d w a b (c ∷ l) o = elim (dec_lt w a) [
  | yes lt ↦ ground (
    arith,
    insert_below w a (b ∷ c ∷ l) lt,
    before-IsFrom d a b (c ∷ l) o,
    last-IsFrom d a (b ∷ c ∷ l) o,
  )
  | no ge ↦
      ground (
        arith,
        insert_above w a (b ∷ c ∷ l) ge,
        before-cons d a w b c l,
        before-insert d w b c l o.1,
      )
]

last-IsTime : (d a : ℕ) (l : List ℕ) → IsTime (a ∷ l) → last_or d (a ∷ l) < 2 ^ 63
last-IsTime d a [] h = h.0
last-IsTime d a (b ∷ l) h = last-IsTime d b l h.1

without_last-IsTime : (l : List ℕ) → IsTime l → IsTime (without_last l)
without_last-IsTime [] h = tt
without_last-IsTime (a ∷ []) h = tt
without_last-IsTime (a ∷ b ∷ l) h = (h.0, without_last-IsTime (b ∷ l) h.1)

less-ltb : (a b : ℕ) → a < 2 ^ 63 → b < 2 ^ 63 → less a b ≡ ltb a b
less-ltb a b lt lt' = ground arith

min_less : (w : ℕ) → w < 2 ^ 63 → less min_int64 w ≡ true
min_less w lt = ground arith

module _ (w : ℕ) (lt : w < 2 ^ 63) where
  -- the greatest,
  pub greatest-insert :
      (l : List ℕ)
      → IsTime l
      → IsFrom 0 l
      → last_or min_int64 (insert w l)
        ≡ (if less (last_or min_int64 l) w then w else last_or min_int64 l)
  greatest-insert [] h o = ground (arith, one_lem w)
  greatest-insert (a ∷ l) h o = ground (
    arith,
    last-insert min_int64 w a l o.1,
    less-ltb (last_or min_int64 (a ∷ l)) w (last-IsTime min_int64 a l h) lt,
  )

  -- and the one before it.
  pub before-greatest-insert :
      (l : List ℕ)
      → IsTime l
      → IsFrom 0 l
      → last_or min_int64 (without_last (insert w l)) ≡ (
          if less (last_or min_int64 l) w
          then last_or min_int64 l
          else (if less (last_or min_int64 (without_last l)) w
              then w
              else last_or min_int64 (without_last l)))
  before-greatest-insert [] h o = ground (arith, one_lem w)
  before-greatest-insert (a ∷ []) h o = elim (dec_lt w a) [
    | yes below ↦ ground (arith, insert_below w a [] below)
    | no above ↦ ground (arith, insert_above w a [] above, one_lem w)
  ]
  before-greatest-insert (a ∷ b ∷ l) h o = ground (
    arith,
    before-insert min_int64 w a b l o.1,
    less-ltb (last_or min_int64 (a ∷ b ∷ l)) w (last-IsTime min_int64 a (b ∷ l) h) lt,
    less-ltb (last_or min_int64 (without_last (a ∷ b ∷ l))) w
        (last-IsTime min_int64 a (without_last (b ∷ l)) (without_last-IsTime (a ∷ b ∷ l) h)) lt,
  )

total-without_last :
    (d a : ℕ) (l : List ℕ) → total (without_last (a ∷ l)) + last_or d (a ∷ l) ≡ total (a ∷ l)
total-without_last d a [] = omega arith
total-without_last d a (b ∷ l) = omega (arith, total-without_last d b l)

-- The sum of all but the two smallest and the two greatest.
pub total-middle :
    (d d' : ℕ) (l : List ℕ)
    → 4 ≤ length l
    → total (middle l) + (last_or d' l + last_or d' (without_last l) + get_or l 0 d + get_or l 1 d)
      ≡ total l
total-middle d d' (a ∷ b ∷ c ∷ e ∷ l) h =
    omega (arith, total-without_last d' e l, total-without_last d' c (without_last (e ∷ l)))
total-middle d d' [] h = absurd (omega arith)
total-middle d d' (a ∷ []) h = absurd (omega arith)
total-middle d d' (a ∷ b ∷ []) h = absurd (omega arith)
total-middle d d' (a ∷ b ∷ c ∷ []) h = absurd (omega arith)

length-insert : (w : ℕ) (l : List ℕ) → length (insert w l) ≡ 1 + length l
unfolding insert
length-insert w [] = refl
length-insert w (a ∷ l) = ground (arith, length-insert w l)

total-insert : (w : ℕ) (l : List ℕ) → total (insert w l) ≡ w + total l
unfolding insert
total-insert w [] = refl
total-insert w (a ∷ l) = ground (arith, total-insert w l)

pub length-sort : (ws : List ℕ) → length (sort ws) ≡ length ws
length-sort [] = refl
length-sort (w ∷ ws) = omega (arith, length-insert w (sort ws), length-sort ws)

pub total-sort : (ws : List ℕ) → total (sort ws) ≡ total ws
total-sort [] = refl
total-sort (w ∷ ws) = omega (arith, total-insert w (sort ws), total-sort ws)
