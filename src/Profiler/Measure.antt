-- ===== src/Profiler/Measure.antt =====
-- What a call of ProfileBegin and one of ProfileEnd of Profiler.cpp do to the samples.
use mmoserver.Shared.{
  ℕ_discrete, ℕ, ◌<◌, ◌≡◌, ◌≢◌, ◌⊎◌, Option, none, some, List, [], ◌>>=◌, arith, refl, ap, ◌∙◌, sym,
  ltb, length, Option-cases, inl, inr, subst, suc,
}
use mmoserver.Profiler.Table.{
  ProfileData, ProfileInfo, new_data, new_table, tag_max, add_sample, begin_at, end_at, begin_in,
  end_in, find_tag, find_unused, modify, restart, register, finish,
}
use mmoserver.Profiler.Register.{register-found, register-others, register-IsTable}
use mmoserver.Profiler.Lookup.{
  data_of-some, data_of, IsTable, modify-found, modify-others, modify-IsTable, data_of-none,
  if_true,
}
use mmoserver.Profiler.Calls.{Profiler, max_info, set_table, profile_begin, profile_end, sample}
use mmoserver.Profiler.Samples.{
  assign_same, IsProfiler, Owned, own_lem, new_lem, set_own, set_other, set-IsProfiler, sample_at,
}
use mathlib.Core.Option as Option

-- The data of a name, before the first call those of the constructor.
abbrev pub latest : Option ProfileData → ProfileData
latest (some d) = d
latest none = new_data

abbrev pub set_start : ℕ → ProfileData → ProfileData
set_start begin_time d = record d { start_time = begin_time }

abbrev pub restarted : ℕ → Option ProfileData → ProfileData
restarted begin_time o = set_start begin_time (latest o)

-- The table has the name, or room for it.
abbrev pub HasPlace : List ℕ → List ProfileInfo → Type 0
HasPlace name t = ((i : ℕ) × (find_tag name t ≡ some i)) ⊎ ((i : ℕ) × (find_unused t ≡ some i))

module _ (name : List ℕ) (some_name : name ≢ []) where
  -- Table `t'` has the data `d` for the name, and those of `t` for the others.
  pub record Changed (t t' : List ProfileInfo) (d : ProfileData) : Type 0 where
    pub own_data : data_of name t' ≡ some d
    pub others : (other : List ℕ) → name ≢ other → other ≢ [] → data_of other t' ≡ data_of other t
    pub valid : IsTable t'

  found_data :
      (t : List ProfileInfo) (i : ℕ)
      → find_tag name t ≡ some i
      → data_of name t ≡ some (latest (data_of name t))
  found_data t i h =
      let (d, is) = data_of-some name t i h in subst (λ o. o ≡ some (latest o)) (sym is) refl

  restart_lem :
      (b : ℕ) (t : List ProfileInfo) (i : ℕ)
      → IsTable t
      → find_tag name t ≡ some i
      → Changed t (modify i (restart b) t) (restarted b (data_of name t))
  restart_lem b t i ok found = record {
    own_data =
        modify-found (restart b) (set_start b) (λ k. refl) (λ k. refl) name t i found
        ∙ ap (Option.map (set_start b)) (found_data t i found);
    others = λ other ne z.
        modify-others (restart b) (set_start b) (λ k. refl) (λ k. refl) name other t i found ne;
    valid = modify-IsTable (restart b) name t i (λ k. refl) found some_name ok;
  }

  register_lem :
      (id b : ℕ) (t : List ProfileInfo) (i : ℕ)
      → IsTable t
      → find_tag name t ≡ none
      → find_unused t ≡ some i
      → Changed t (modify i (register name id b) t) (restarted b (data_of name t))
  register_lem id b t i ok absent unused = record {
    own_data =
        register-found name id b t i absent unused ok
        ∙ ap (λ o. some (restarted b o)) (sym (data_of-none name t absent));
    others = λ other ne z. register-others name id b other t i unused ne z ok;
    valid = register-IsTable name id b t i ok;
  }

  begin_in_lem :
      (id b : ℕ) (t : List ProfileInfo)
      → length name < 128
      → IsTable t
      → HasPlace name t
      → (t' : List ProfileInfo) × (begin_in name id b t ≡ some t')
        × Changed t t' (restarted b (data_of name t))
  unfolding begin_in
  begin_in_lem id b t short ok place = elim (Option-cases (find_tag name t)) [
    | inr (i, found) ↦ (
      modify i (restart b) t,
      ap (λ o. begin_at o (find_unused t) name id b t) found,
      restart_lem b t i ok found,
    )
    | inl absent ↦ elim place [
      | inl (i, found) ↦ absurd (ground (arith, absent, found))
      | inr (i, unused) ↦ (
        modify i (register name id b) t,
        ap (λ o. begin_at o (find_unused t) name id b t) absent
            ∙ ap (λ o. begin_at none o name id b t) unused
            ∙ if_true {b = ltb (length name) 128} none (ground arith),
        register_lem id b t i ok absent unused,
      )
    ]
  ]

  end_in_lem :
      (e : ℕ) (t : List ProfileInfo) (d : ProfileData)
      → IsTable t
      → data_of name t ≡ some d
      → (t' : List ProfileInfo) × (end_in name e t ≡ some t') × Changed t t' (add_sample e d)
  unfolding end_in
  end_in_lem e t d ok has = elim (Option-cases (find_tag name t)) [
    | inl absent ↦ absurd (ground (arith, data_of-none name t absent, has))
    | inr (i, found) ↦ (
      modify i (finish e) t,
      ap (λ o. end_at o e t) found,
      record {
        own_data =
            modify-found (finish e) (add_sample e) (λ k. refl) (λ k. refl) name t i found
            ∙ ap (Option.map (add_sample e)) has;
        others = λ other ne z.
            modify-others (finish e) (add_sample e) (λ k. refl) (λ k. refl) name other t i found ne;
        valid = modify-IsTable (finish e) name t i (λ k. refl) found some_name ok;
      },
    )
  ]

-- The thread's table has the name or room for it, or the thread gets a new one.
abbrev pub HasRoom : ℕ → List ℕ → Profiler → Type 0
HasRoom id name p =
    ((k : ℕ) × (p.tls id ≡ some k) × HasPlace name (p.profile_manager k))
    ⊎ ((p.tls id ≡ none) × (p.tables < max_info))

unused_new : (n : ℕ) → find_unused (new_table (suc n)) ≡ some 0
unfolding new_table
unused_new n = refl

-- The samples behind calls with one name by one thread.
pub record Sampled (id : ℕ) (name : List ℕ) (p q : Profiler) (d : ProfileData) : Type 0 where
  pub own_sample : sample id name q ≡ some d
  pub others :
      (i : ℕ) (other : List ℕ)
      → (i ≢ id) ⊎ (name ≢ other)
      → other ≢ []
      → sample i other q ≡ sample i other p
  pub valid : IsProfiler q
  pub table : (k : ℕ) × (q.tls id ≡ some k)

module _ (id : ℕ) (name : List ℕ) (some_name : name ≢ []) where
  owner :
      (p : Profiler)
      → IsProfiler p
      → HasRoom id name p
      → (k : ℕ) × (q : Profiler) × Owned id p k q × HasPlace name (q.profile_manager k)
  owner p ok (inl (k, is, place)) = (k, p, own_lem ok id k is, place)
  owner p ok (inr (none_yet, room)) =
      let owned = new_lem ok id none_yet room in
      (
        p.tables,
        _,
        owned,
        inr (
          0,
          ap find_unused (assign_same p.profile_manager p.tables (new_table tag_max))
              ∙ unused_new 99,
        ),
      )

  Changed-Sampled :
      (p q : Profiler) (k : ℕ) (t : List ProfileInfo) (d : ProfileData)
      → IsProfiler q
      → q.tls id ≡ some k
      → ((i : ℕ) (other : List ℕ) → other ≢ [] → sample i other q ≡ sample i other p)
      → Changed name some_name (q.profile_manager k) t d
      → Sampled id name p (set_table q k t) d
  Changed-Sampled p q k t d ok mine same h = record {
    own_sample = set_own ok id k mine t h.valid name ∙ h.own_data;
    others = λ i other apart z. others i other apart z;
    valid = set-IsProfiler ok id k mine t h.valid;
    table = (k, mine);
  }
    where
      others :
          (i : ℕ) (other : List ℕ)
          → (i ≢ id) ⊎ (name ≢ other)
          → other ≢ []
          → sample i other (set_table q k t) ≡ sample i other p
      others i other apart z = elim (ℕ_discrete id i) [
        | no ne ↦ set_other ok id k mine t h.valid i other (λ x. ne (sym x)) ∙ same i other z
        | yes me ↦ elim apart [
          | inl ne ↦ absurd (ne (sym me))
          | inr ne ↦
              subst (λ j. sample j other (set_table q k t) ≡ sample j other p) me
                (set_own ok id k mine t h.valid other
                  ∙ h.others other ne z
                  ∙ sym (sample_at id other q k mine)
                  ∙ same id other z)
        ]
      ]

  begin_lem :
      (b : ℕ) (p : Profiler)
      → length name < 128
      → IsProfiler p
      → HasRoom id name p
      → (q : Profiler) × (profile_begin id name b p ≡ some q)
        × Sampled id name p q (restarted b (sample id name p))
  unfolding profile_begin
  begin_lem b p short ok room =
      let (k, q, owned, place) = owner p ok room in
      let (t, is, changed) =
        begin_in_lem name some_name id b (q.profile_manager k) short (owned.valid.valid k) place in
      (
        set_table q k t,
        ap
              (λ o. o >>= λ x.
                begin_in name id b (x.1.profile_manager x.0) >>= λ u. some (set_table x.1 x.0 u))
              owned.found
            ∙ ap (λ o. o >>= λ u. some (set_table q k u)) is,
        subst (λ o. Sampled id name p (set_table q k t) (restarted b o))
            (sym (sample_at id name q k owned.mine) ∙ owned.same id name some_name)
            (Changed-Sampled p q k t (restarted b (data_of name (q.profile_manager k))) owned.valid
              owned.mine owned.same changed),
      )

  end_lem :
      (e : ℕ) (p : Profiler) (d : ProfileData)
      → IsProfiler p
      → sample id name p ≡ some d
      → (k : ℕ) × (p.tls id ≡ some k)
      → (q : Profiler) × (profile_end id name e p ≡ some q) × Sampled id name p q (add_sample e d)
  unfolding profile_end
  end_lem e p d ok has (k, mine) =
      let (t, is, changed) =
        end_in_lem name some_name e (p.profile_manager k) d (ok.valid k)
          (sym (sample_at id name p k mine) ∙ has) in
      (
        set_table p k t,
        ap (λ o. o >>= λ j. end_in name e (p.profile_manager j) >>= λ u. some (set_table p j u))
              mine
            ∙ ap (λ o. o >>= λ u. some (set_table p k u)) is,
        Changed-Sampled p p k t (add_sample e d) ok mine (λ i other z. refl) changed,
      )

  -- When each thread has a table of its own, and thread `id` has the name in its table, room for it
  -- there, or no table while there are less than 100, ProfileBegin with a name of 1 to 127 characters
  -- and ProfileEnd behind it do not crash: they add one sample to the data of that thread and name,
  -- those of the constructor when there are none, and change the data of no other thread or name but
  -- the empty one; each thread has a table of its own then.
  pub measure_lem :
      (b e : ℕ) (p : Profiler)
      → length name < 128
      → IsProfiler p
      → HasRoom id name p
      → (q : Profiler) × (r : Profiler) × (profile_begin id name b p ≡ some q)
        × (profile_end id name e q ≡ some r)
        × Sampled id name p r (add_sample e (restarted b (sample id name p)))
  measure_lem b e p short ok room =
      let (q, begun, h) = begin_lem b p short ok room in
      let (r, ended, h') =
        end_lem e q (restarted b (sample id name p)) h.valid h.own_sample h.table in
      (
        q,
        r,
        begun,
        ended,
        record {
          own_sample = h'.own_sample;
          others = λ i other apart z. h'.others i other apart z ∙ h.others i other apart z;
          valid = h'.valid;
          table = h'.table;
        },
      )
