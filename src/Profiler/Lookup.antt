-- ===== src/Profiler/Lookup.antt =====
-- The elements of a table of Profiler.cpp, by their tags.
use mmoserver.Shared.{
  zero, ◌⊎◌, ap₂, some-injective, subst, ℕ, ◌≡◌, ◌≢◌, Bool, true, false, Option, none, some, List,
  [], ◌∷◌, ◌==◌, ◌&&◌, if◌then◌else◌, arith, refl, ap, ◌∙◌, sym, suc, Bool-cases, inl, inr,
}
use mathlib.Core.Option as Option
use mmoserver.Profiler.Table.{
  new_info, new_table, ProfileData, ProfileInfo, same_name, find_tag, modify,
}

-- The sample data of the first element with the name.
abbrev pub data_of : List ℕ → List ProfileInfo → Option ProfileData
data_of name [] = none
data_of name (info ∷ rest) =
    let later = data_of name rest in
    if same_name info.tag_name name then some info.sample_data else later

both : (a b : Bool) → (a && b) ≡ true → (a ≡ true) × (b ≡ true)
both true b h = (refl, h)
both false b h = absurd (ground arith)

pub if_true : {A : Type 0} {b : Bool} {x : A} (y : A) → b ≡ true → (if b then x else y) ≡ x
if_true {b = true} y h = refl
if_true {b = false} y h = absurd (ground arith)

pub if_false : {A : Type 0} {b : Bool} (x : A) {y : A} → b ≡ false → (if b then x else y) ≡ y
if_false {b = true} x h = absurd (ground arith)
if_false {b = false} x h = refl

pub none-ne-some : {A : Type 0} {a : A} → ¬ (none ≡ some a)
none-ne-some h = ground arith

same_name→eq : (xs ys : List ℕ) → same_name xs ys ≡ true → xs ≡ ys
same_name→eq [] [] h = refl
same_name→eq [] (b ∷ ys) h = absurd (ground arith)
same_name→eq (a ∷ xs) [] h = absurd (ground arith)
same_name→eq (a ∷ xs) (b ∷ ys) h =
    let (first, others) = both (a == b) (same_name xs ys) h in
    let e : a ≡ b = ground (arith, first) in ap₂ ◌∷◌ e (same_name→eq xs ys others)

pub same_name_refl : (xs : List ℕ) → same_name xs xs ≡ true
same_name_refl [] = refl
same_name_refl (a ∷ xs) = ground (arith, same_name_refl xs)

pub different : (xs ys : List ℕ) → xs ≢ ys → same_name xs ys ≡ false
different xs ys ne = elim (Bool-cases (same_name xs ys)) [
  | inl same ↦ absurd (ne (same_name→eq xs ys same))
  | inr off ↦ off
]

pub map-suc :
    (o : Option ℕ) (i : ℕ) → Option.map suc o ≡ some i → (j : ℕ) × (o ≡ some j) × (suc j ≡ i)
map-suc none i h = absurd (none-ne-some h)
map-suc (some j) i h = (j, refl, some-injective (suc j) i h)

map-none : (o : Option ℕ) → Option.map suc o ≡ none → o ≡ none
map-none none h = refl
map-none (some j) h = absurd (none-ne-some (sym h))

pub none_cons :
    (name : List ℕ) (info : ProfileInfo) (rest : List ProfileInfo)
    → find_tag name (info ∷ rest) ≡ none
    → (same_name info.tag_name name ≡ false) × (find_tag name rest ≡ none)
none_cons name info rest h = elim (Bool-cases (same_name info.tag_name name)) [
  | inl same ↦ absurd (none-ne-some (sym h ∙ if_true _ same))
  | inr other ↦ (other, map-none (find_tag name rest) (sym (if_false (some 0) other) ∙ h))
]

-- Where the first element with the name stands.
found_cons :
    (name : List ℕ) (info : ProfileInfo) (rest : List ProfileInfo) (i : ℕ)
    → find_tag name (info ∷ rest) ≡ some i
    → ((same_name info.tag_name name ≡ true) × (0 ≡ i))
      ⊎ ((same_name info.tag_name name ≡ false)
          × ((j : ℕ) × (find_tag name rest ≡ some j) × (suc j ≡ i)))
found_cons name info rest i h = elim (Bool-cases (same_name info.tag_name name)) [
  | inl same ↦ inl (same, some-injective 0 i (sym (if_true _ same) ∙ h))
  | inr other ↦ inr (other, map-suc (find_tag name rest) i (sym (if_false _ other) ∙ h))
]

module _ (f : ProfileInfo → ProfileInfo) (g : ProfileData → ProfileData)
    (keeps : (info : ProfileInfo) → (f info).tag_name ≡ info.tag_name)
    (does : (info : ProfileInfo) → (f info).sample_data ≡ g info.sample_data) where
  pub modify-found :
      (name : List ℕ) (t : List ProfileInfo) (i : ℕ)
      → find_tag name t ≡ some i
      → data_of name (modify i f t) ≡ Option.map g (data_of name t)
  modify-found name [] i h = absurd (none-ne-some h)
  modify-found name (info ∷ rest) i h = elim (found_cons name info rest i h) [
    | inl (same, at) ↦
        subst
          (λ k. data_of name (modify k f (info ∷ rest)) ≡ Option.map g (data_of name (info ∷ rest)))
          at
          (if_true _ (ap (λ n. same_name n name) (keeps info) ∙ same)
            ∙ ap some (does info)
            ∙ ap (Option.map g) (sym (if_true _ same)))
    | inr (other, (j, found, at)) ↦
        subst
          (λ k. data_of name (modify k f (info ∷ rest)) ≡ Option.map g (data_of name (info ∷ rest)))
          at
          (if_false (some info.sample_data) other
            ∙ modify-found name rest j found
            ∙ ap (Option.map g) (sym (if_false (some info.sample_data) other)))
  ]

  -- The other names have the data that they had.
  pub modify-others :
      (name other : List ℕ) (t : List ProfileInfo) (i : ℕ)
      → find_tag name t ≡ some i
      → name ≢ other
      → data_of other (modify i f t) ≡ data_of other t
  modify-others name other [] i h ne = absurd (none-ne-some h)
  modify-others name other (info ∷ rest) i h ne = elim (found_cons name info rest i h) [
    | inl (same, at) ↦
        subst (λ k. data_of other (modify k f (info ∷ rest)) ≡ data_of other (info ∷ rest)) at
          (if_false (some ((f info).sample_data)) (
              ap (λ n. same_name n other) (keeps info ∙ same_name→eq info.tag_name name same)
              ∙ different name other ne)
            ∙ sym (
                if_false (some info.sample_data) (
                  ap (λ n. same_name n other) (same_name→eq info.tag_name name same)
                  ∙ different name other ne)))
    | inr (apart, (j, found, at)) ↦
        subst (λ k. data_of other (modify k f (info ∷ rest)) ≡ data_of other (info ∷ rest)) at
          (ap (λ k. if same_name info.tag_name other then some info.sample_data else k)
            (modify-others name other rest j found ne))
  ]

-- Each element is in use, or new.
abbrev pub IsTable : List ProfileInfo → Type 0
IsTable [] = Unit
IsTable (info ∷ rest) = ((info.used ≡ true) ⊎ (info ≡ new_info)) × IsTable rest

pub new_table-IsTable : (n : ℕ) → IsTable (new_table n)
unfolding new_table
new_table-IsTable zero = tt
new_table-IsTable (suc n) = (inr refl, new_table-IsTable n)

pub modify-IsTable :
    (f : ProfileInfo → ProfileInfo) (name : List ℕ) (t : List ProfileInfo) (i : ℕ)
    → ((info : ProfileInfo) → (f info).used ≡ info.used)
    → find_tag name t ≡ some i
    → name ≢ []
    → IsTable t
    → IsTable (modify i f t)
modify-IsTable f name [] i keeps h ne ok = tt
modify-IsTable f name (info ∷ rest) i keeps h ne ok = elim (found_cons name info rest i h) [
  | inl (same, at) ↦
      subst (λ k. IsTable (modify k f (info ∷ rest))) at
        (
          elim ok.0 [
            | inl used ↦ inl (keeps info ∙ used)
            | inr new ↦
                absurd (ne (sym (same_name→eq info.tag_name name same) ∙ ap (λ k. k.tag_name) new))
          ],
          ok.1,
        )
  | inr (other, (j, found, at)) ↦
      subst (λ k. IsTable (modify k f (info ∷ rest))) at
        (ok.0, modify-IsTable f name rest j keeps found ne ok.1)
]

-- A name that is not found has no data, and one that is found has.
pub data_of-none :
    (name : List ℕ) (t : List ProfileInfo) → find_tag name t ≡ none → data_of name t ≡ none
data_of-none name [] h = refl
data_of-none name (info ∷ rest) h =
    let (other, later) = none_cons name info rest h in
    if_false (some info.sample_data) other ∙ data_of-none name rest later

pub data_of-some :
    (name : List ℕ) (t : List ProfileInfo) (i : ℕ)
    → find_tag name t ≡ some i
    → (d : ProfileData) × (data_of name t ≡ some d)
data_of-some name [] i h = absurd (none-ne-some h)
data_of-some name (info ∷ rest) i h = elim (found_cons name info rest i h) [
  | inl (same, at) ↦ (info.sample_data, if_true (data_of name rest) same)
  | inr (other, (j, found, at)) ↦
      let (d, is) = data_of-some name rest j found in
      (d, if_false (some info.sample_data) other ∙ is)
]
