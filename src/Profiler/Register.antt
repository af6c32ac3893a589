-- ===== src/Profiler/Register.antt =====
-- A name that Profiler.cpp enters into a table.
use mmoserver.Shared.{
  zero, ◌⊎◌, some-injective, subst, ℕ, ◌≡◌, ◌≢◌, true, false, none, some, List, [], ◌∷◌,
  if◌then◌else◌, arith, refl, ap, ◌∙◌, sym, suc, Bool-cases, inl, inr,
}
use mmoserver.Profiler.Table.{
  new_data, find_unused, register, ProfileInfo, same_name, find_tag, modify,
}
use mmoserver.Profiler.Lookup.{
  data_of, IsTable, none-ne-some, if_true, if_false, same_name_refl, map-suc, none_cons, different,
}

-- Where the first element stands that is not in use.
unused_cons :
    (info : ProfileInfo) (rest : List ProfileInfo) (i : ℕ)
    → find_unused (info ∷ rest) ≡ some i
    → ((info.used ≡ false) × (0 ≡ i))
      ⊎ ((info.used ≡ true) × ((j : ℕ) × (find_unused rest ≡ some j) × (suc j ≡ i)))
unused_cons info rest i h = elim (Bool-cases info.used) [
  | inr off ↦ inl (off, some-injective 0 i (sym (if_false _ off) ∙ h))
  | inl on ↦ inr (on, map-suc (find_unused rest) i (sym (if_true (some 0) on) ∙ h))
]

module _ (name : List ℕ) (id begin_time : ℕ) where
  pub register-found :
      (t : List ProfileInfo) (i : ℕ)
      → find_tag name t ≡ none
      → find_unused t ≡ some i
      → IsTable t
      → data_of name (modify i (register name id begin_time) t)
        ≡ some (record new_data { start_time = begin_time })
  register-found [] i h u ok = absurd (none-ne-some u)
  register-found (info ∷ rest) i h u ok = elim (unused_cons info rest i u) [
    | inl (off, at) ↦
        subst
          (λ k.
            data_of name (modify k (register name id begin_time) (info ∷ rest))
            ≡ some (record new_data { start_time = begin_time }))
          at
          (if_true _ (same_name_refl name) ∙ elim ok.0 [
            | inl used ↦ absurd (ground (arith, used, off))
            | inr new ↦ ap (λ k. some (record (k.sample_data) { start_time = begin_time })) new
          ])
    | inr (on, (j, found, at)) ↦
        let (other, none_later) = none_cons name info rest h in
        subst
          (λ k.
            data_of name (modify k (register name id begin_time) (info ∷ rest))
            ≡ some (record new_data { start_time = begin_time }))
          at (if_false (some info.sample_data) other ∙ register-found rest j none_later found ok.1)
  ]

  pub register-others :
      (other : List ℕ) (t : List ProfileInfo) (i : ℕ)
      → find_unused t ≡ some i
      → name ≢ other
      → other ≢ []
      → IsTable t
      → data_of other (modify i (register name id begin_time) t) ≡ data_of other t
  register-others other [] i u ne some_name ok = absurd (none-ne-some u)
  register-others other (info ∷ rest) i u ne some_name ok = elim (unused_cons info rest i u) [
    | inl (off, at) ↦
        subst
          (λ k.
            data_of other (modify k (register name id begin_time) (info ∷ rest))
            ≡ data_of other (info ∷ rest))
          at
          (if_false _ (different name other ne) ∙ elim ok.0 [
            | inl used ↦ absurd (ground (arith, used, off))
            | inr new ↦ sym (
                if_false (some info.sample_data) (
                  ap (λ k. same_name k.tag_name other) new
                  ∙ different [] other (λ z. some_name (sym z))))
          ])
    | inr (on, (j, found, at)) ↦
        subst
          (λ k.
            data_of other (modify k (register name id begin_time) (info ∷ rest))
            ≡ data_of other (info ∷ rest))
          at
          (ap (λ k. if same_name info.tag_name other then some info.sample_data else k)
            (register-others other rest j found ne some_name ok.1))
  ]

  pub register-IsTable :
      (t : List ProfileInfo) (i : ℕ)
      → IsTable t
      → IsTable (modify i (register name id begin_time) t)
  register-IsTable [] i ok = tt
  register-IsTable (info ∷ rest) zero ok = (inl refl, ok.1)
  register-IsTable (info ∷ rest) (suc i) ok = (ok.0, register-IsTable rest i ok.1)
