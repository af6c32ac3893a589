-- ===== src/Profiler/Samples.antt =====
-- ProfileBegin and ProfileEnd of Profiler.cpp: whose samples they change.
use mmoserver.Shared.{
  ltb, some-injective, ℕ_discrete, ℕ, ◌+◌, ◌<◌, ◌≡◌, ◌≢◌, ◌⊎◌, none, some, List, [], ◌∷◌, ◌>>=◌,
  arith, refl, ap, ◌∙◌, sym, ltb, Option-cases, inl, inr, subst, zero, suc,
}
use mmoserver.Families.{assign, assign-elim}
use mmoserver.Profiler.Table.{ProfileInfo, new_table, tag_max, find_tag}
use mmoserver.Profiler.Lookup.{if_true, data_of, IsTable, new_table-IsTable, data_of-none}
use mmoserver.Profiler.Calls.{own_or_new, Profiler, max_info, set_table, own_table, sample}
use mathlib.Core.Option as Option

-- Each thread has a table of its own.
pub record IsProfiler (p : Profiler) : Type 0 where
  pub own : (i j k : ℕ) → p.tls i ≡ some k → p.tls j ≡ some k → i ≡ j
  pub below : (i k : ℕ) → p.tls i ≡ some k → k < p.tables
  pub valid : (k : ℕ) → IsTable (p.profile_manager k)

pub assign_same : {A : Type 0} (f : ℕ → A) (k : ℕ) (a : A) → assign f k a k ≡ a
assign_same f k a = ground arith

assign_other : {A : Type 0} (f : ℕ → A) (k j : ℕ) (a : A) → k ≢ j → assign f k a j ≡ f j
assign_other f k j a ne = ground arith

pub sample_at :
    (i : ℕ) (name : List ℕ) (p : Profiler) (k : ℕ)
    → p.tls i ≡ some k
    → sample i name p ≡ data_of name (p.profile_manager k)
sample_at i name p k is = ap (λ o. o >>= λ j. data_of name (p.profile_manager j)) is

pub sample-none : (i : ℕ) (name : List ℕ) (p : Profiler) → p.tls i ≡ none → sample i name p ≡ none
sample-none i name p is = ap (λ o. o >>= λ j. data_of name (p.profile_manager j)) is

-- A call with a new table for the one of thread `id`.
module _ {p : Profiler} (ok : IsProfiler p) (id k : ℕ) (mine : p.tls id ≡ some k)
    (t : List ProfileInfo) (valid : IsTable t) where
  pub set-IsProfiler : IsProfiler (set_table p k t)
  set-IsProfiler = record {
    own = ok.own;
    below = ok.below;
    valid = λ j. assign-elim IsTable p.profile_manager k j t (λ z. valid) (λ z. ok.valid j);
  }

  pub set_own : (name : List ℕ) → sample id name (set_table p k t) ≡ data_of name t
  set_own name =
      ap (λ o. o >>= λ j. data_of name (assign p.profile_manager k t j)) mine
      ∙ ap (data_of name) (assign_same p.profile_manager k t)

  pub set_other :
      (i : ℕ) (name : List ℕ) → i ≢ id → sample i name (set_table p k t) ≡ sample i name p
  set_other i name ne = elim (Option-cases (p.tls i)) [
    | inl none_yet ↦
        (sample-none i name (set_table p k t) none_yet ∙ sym (sample-none i name p none_yet))
    | inr (j, is) ↦
        (sample_at i name (set_table p k t) j is
          ∙ ap (data_of name) (
              assign_other p.profile_manager k j t
                (λ z. ne (ok.own i id k (is ∙ ap some (sym z)) mine)))
          ∙ sym (sample_at i name p j is))
  ]

pub new_table-none : (name : List ℕ) (n : ℕ) → name ≢ [] → find_tag name (new_table n) ≡ none
unfolding new_table
new_table-none [] n ne = absurd (ne refl)
new_table-none (a ∷ name) zero ne = refl
new_table-none (a ∷ name) (suc n) ne = ap (Option.map suc) (new_table-none (a ∷ name) n ne)

-- A thread that has a table, or can get one, has one then, and all samples stay.
pub record Owned (id : ℕ) (p : Profiler) (k : ℕ) (q : Profiler) : Type 0 where
  pub found : own_table id p ≡ some (k, q)
  pub valid : IsProfiler q
  pub mine : q.tls id ≡ some k
  pub same : (i : ℕ) (name : List ℕ) → name ≢ [] → sample i name q ≡ sample i name p
  pub table : (p.tls id ≡ some k) × (q ≡ p) ⊎ (q.profile_manager k ≡ new_table tag_max)

module _ {p : Profiler} (ok : IsProfiler p) (id : ℕ) where
  pub own_lem : (k : ℕ) → p.tls id ≡ some k → Owned id p k p
  unfolding own_table
  own_lem k is = record {
    found = ap (λ o. own_or_new o id p) is;
    valid = ok;
    mine = is;
    same = λ i name ne. refl;
    table = inl (is, refl);
  }

  abbrev pub with_table : Profiler
  with_table = record {
    profile_manager = assign p.profile_manager p.tables (new_table tag_max);
    tables = p.tables + 1;
    tls = assign p.tls id (some p.tables);
  }

  tls_cases :
      (i k : ℕ) → with_table.tls i ≡ some k → ((i ≡ id) × (k ≡ p.tables)) ⊎ (p.tls i ≡ some k)
  tls_cases i k e = elim (ℕ_discrete id i) [
    | yes same ↦ inl (
      sym same,
      sym (
          some-injective p.tables k (
            sym (
              ap (assign p.tls id (some p.tables)) (sym same)
              ∙ assign_same p.tls id (some p.tables))
            ∙ e)),
    )
    | no other ↦ inr (sym (assign_other p.tls id i (some p.tables) other) ∙ e)
  ]

  with_table-IsProfiler : p.tls id ≡ none → IsProfiler with_table
  with_table-IsProfiler none_yet = record {
    own = λ i j k e e'. elim (tls_cases i k e) [
      | inl (a, at) ↦ elim (tls_cases j k e') [
        | inl (b, at') ↦ a ∙ sym b
        | inr old ↦ absurd (omega (arith, ok.below j k old, at))
      ]
      | inr old ↦ elim (tls_cases j k e') [
        | inl (b, at') ↦ absurd (omega (arith, ok.below i k old, at'))
        | inr old' ↦ ok.own i j k old old'
      ]
    ];
    below = λ i k e. elim (tls_cases i k e) [
      | inl (a, at) ↦ omega (arith, at)
      | inr old ↦ omega (arith, ok.below i k old)
    ];
    valid = λ k.
        assign-elim IsTable p.profile_manager p.tables k (new_table tag_max)
          (λ z. new_table-IsTable tag_max) (λ z. ok.valid k);
  }

  same_samples :
      p.tls id ≡ none
      → (i : ℕ) (name : List ℕ) → name ≢ []
      → sample i name with_table ≡ sample i name p
  same_samples none_yet i name ne = elim (ℕ_discrete id i) [
    | yes same ↦
        subst (λ j. sample j name with_table ≡ sample j name p) same
          (sample_at id name with_table p.tables (assign_same p.tls id (some p.tables))
            ∙ ap (data_of name) (assign_same p.profile_manager p.tables (new_table tag_max))
            ∙ data_of-none name (new_table tag_max) (new_table-none name tag_max ne)
            ∙ sym (sample-none id name p none_yet))
    | no other ↦ elim (Option-cases (p.tls i)) [
      | inl none_now ↦
          sample-none i name with_table (assign_other p.tls id i (some p.tables) other ∙ none_now)
          ∙ sym (sample-none i name p none_now)
      | inr (j, is) ↦
          sample_at i name with_table j (assign_other p.tls id i (some p.tables) other ∙ is)
          ∙ ap (data_of name) (
              assign_other p.profile_manager p.tables j (new_table tag_max)
                (λ z. absurd (omega (arith, ok.below i j is, z))))
          ∙ sym (sample_at i name p j is)
    ]
  ]

  pub new_lem : p.tls id ≡ none → p.tables < max_info → Owned id p p.tables with_table
  unfolding own_table
  new_lem none_yet room = record {
    found =
        ap (λ o. own_or_new o id p) none_yet
        ∙ if_true {b = ltb p.tables max_info} none (ground arith);
    valid = with_table-IsProfiler none_yet;
    mine = assign_same p.tls id (some p.tables);
    same = λ i name ne. same_samples none_yet i name ne;
    table = inr (assign_same p.profile_manager p.tables (new_table tag_max));
  }
