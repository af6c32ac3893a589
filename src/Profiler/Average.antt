-- ===== src/Profiler/Average.antt =====
-- Many calls of ProfileBegin and ProfileEnd of Profiler.cpp with one name by one thread, and the calls
-- that fail.
use mmoserver.Shared.{
  ℕ, ◌^◌, ◌<◌, ◌≤◌, ◌≡◌, ◌≢◌, Option, none, some, List, [], ◌∷◌, ◌>>=◌, arith, ap, ◌∙◌, sym, length,
  Option-cases, inl, inr, subst,
}
use mmoserver.Profiler.Table.{
  ProfileData, valuable_result, find_tag, find_unused, begin_at, end_at, begin_in, end_in,
  add_sample,
}
use mmoserver.Profiler.Lookup.{data_of-none, none-ne-some}
use mmoserver.Profiler.Extremes.{total, middle, sort}
use mmoserver.Profiler.Trimmed.{timed, working_times, IsClock, trimmed_lem}
use mmoserver.Profiler.Calls.{
  Profiler, profile_begin, profile_end, sample, own_or_new, own_table, set_table,
}
use mmoserver.Profiler.Samples.{IsProfiler, sample_at, assign_same}
use mmoserver.Profiler.Measure.{HasRoom, Sampled, measure_lem, restarted}

-- Calls at the times of the list, the latest first.
unfoldable pub time_all : ℕ → List ℕ → List (ℕ × ℕ) → Profiler → Option Profiler
time_all id name [] p = some p
time_all id name ((begin_time, end_time) ∷ calls) p = time_all id name calls p >>= λ q.
    profile_begin id name begin_time q >>= λ r. profile_end id name end_time r

module _ (id : ℕ) (name : List ℕ) (some_name : name ≢ []) (short : length name < 128) where
  Sampled-HasRoom : (p q : Profiler) (d : ProfileData) → Sampled id name p q d → HasRoom id name q
  Sampled-HasRoom p q d h =
      let (k, mine) = h.table in
      elim (Option-cases (find_tag name (q.profile_manager k))) [
        | inr (i, found) ↦ inl (k, mine, inl (i, found))
        | inl absent ↦ absurd (
            none-ne-some (
              sym (data_of-none name (q.profile_manager k) absent)
              ∙ sym (sample_at id name q k mine)
              ∙ h.own_sample))
      ]

  time_all-Sampled :
      (c : ℕ × ℕ) (calls : List (ℕ × ℕ)) (p : Profiler)
      → IsProfiler p
      → HasRoom id name p
      → sample id name p ≡ none
      → (q : Profiler) × (time_all id name (c ∷ calls) p ≡ some q)
        × Sampled id name p q (timed (c ∷ calls))
  unfolding time_all timed
  time_all-Sampled (b, e) [] p ok room new =
      let (q, r, begun, ended, h) = measure_lem id name some_name b e p short ok room in
      (
        r,
        ap (λ o. o >>= λ k. profile_end id name e k) begun ∙ ended,
        subst (λ o. Sampled id name p r (add_sample e (restarted b o))) new h,
      )
  time_all-Sampled (b, e) (c ∷ calls) p ok room new =
      let (m, before, past) = time_all-Sampled c calls p ok room new in
      let (q, r, begun, ended, h) =
        measure_lem id name some_name b e m short past.valid
          (Sampled-HasRoom p m (timed (c ∷ calls)) past) in
      (
        r,
        ap (λ o. o >>= λ z. profile_begin id name b z >>= λ k. profile_end id name e k) before
            ∙ ap (λ o. o >>= λ k. profile_end id name e k) begun
            ∙ ended,
        record {
          own_sample = h.own_sample ∙ ap (λ o. some (add_sample e (restarted b o))) past.own_sample;
          others = λ i other apart z. h.others i other apart z ∙ past.others i other apart z;
          valid = h.valid;
          table = h.table;
        },
      )

  -- When each thread has a table of its own, a thread has no data yet for a name of 1 to 127
  -- characters and there is room for it, at least four calls of ProfileBegin and ProfileEnd with that
  -- name, at times of a clock that does not go back, which together are below 2 ^ 63 as is their number,
  -- do not crash. The value that ProfileDataOutText divides for the average then is the sum of the
  -- times between them, sorted, without the first two and the last two, and the calls counted are as
  -- many.
  pub average_lem :
      (calls : List (ℕ × ℕ)) (p : Profiler)
      → IsProfiler p
      → HasRoom id name p
      → sample id name p ≡ none
      → IsClock calls
      → total (working_times calls) < 2 ^ 63
      → length (working_times calls) < 2 ^ 63
      → 4 ≤ length (working_times calls)
      → (q : Profiler) × (d : ProfileData) × (time_all id name calls p ≡ some q)
        × (sample id name q ≡ some d)
        × (valuable_result d ≡ total (middle (sort (working_times calls))))
        × (d.call ≡ length (working_times calls))
  average_lem [] p ok room new clock small few enough = absurd (omega arith)
  average_lem (c ∷ calls) p ok room new clock small few enough =
      let (q, run, h) = time_all-Sampled c calls p ok room new in
      let (value, count) = trimmed_lem (c ∷ calls) clock small few enough in
      (q, timed (c ∷ calls), run, h.own_sample, value, count)

-- When each element of a thread's table is in use, and none for the name, ProfileBegin does not
-- fail, and ProfileEnd behind it crashes.
pub full_lem :
    (id : ℕ) (name : List ℕ) (b e k : ℕ) (p : Profiler)
    → p.tls id ≡ some k
    → find_tag name (p.profile_manager k) ≡ none
    → find_unused (p.profile_manager k) ≡ none
    → (q : Profiler) × (profile_begin id name b p ≡ some q) × (profile_end id name e q ≡ none)
unfolding profile_begin profile_end own_table begin_in end_in
full_lem id name b e k p mine absent full =
    let t = p.profile_manager k in
    (
      set_table p k t,
      ap
            (λ o. own_or_new o id p >>= λ x.
              begin_in name id b (x.1.profile_manager x.0) >>= λ u. some (set_table x.1 x.0 u))
            mine
          ∙ ap (λ o. begin_at o (find_unused t) name id b t >>= λ u. some (set_table p k u)) absent
          ∙ ap (λ o. begin_at none o name id b t >>= λ u. some (set_table p k u)) full,
      ap
            (λ o. o >>= λ j. end_in name e ((set_table p k t).profile_manager j) >>= λ u.
              some (set_table (set_table p k t) j u))
            mine
          ∙ ap (λ l. end_in name e l >>= λ u. some (set_table (set_table p k t) k u))
              (assign_same p.profile_manager k t)
          ∙ ap (λ o. end_at o e t >>= λ u. some (set_table (set_table p k t) k u)) absent,
    )
