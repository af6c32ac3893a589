-- ===== src/Profiler/Tests.antt =====
-- Five calls of one thread, and the theorems on them.
use mmoserver.Shared.{ℕ, ◌≡◌, none, some, List, [], ◌∷◌, arith, refl, inr, true}
use mmoserver.Profiler.Table.{ProfileData, new_info, add_sample, valuable_result}
use mmoserver.Profiler.Extremes.{total, middle, sort}
use mmoserver.Profiler.Calls.{
  Profiler, new_profiler, profile_begin, profile_end, sample, profile_data_out_text,
}
use mmoserver.Profiler.Samples.{IsProfiler}
use mmoserver.Profiler.Measure.{Sampled, restarted, measure_lem}
use mmoserver.Profiler.Trimmed.{working_times, timed}
use mmoserver.Profiler.Average.{time_all, average_lem, full_lem}

abbrev tag_a : List ℕ
tag_a = 97 ∷ []

abbrev five_calls : List (ℕ × ℕ)
five_calls = (90, 94) ∷ (70, 71) ∷ (50, 59) ∷ (20, 27) ∷ (10, 15) ∷ []

new_profiler-IsProfiler : IsProfiler new_profiler
new_profiler-IsProfiler = record {
  own = λ i j k e e'. ground arith;
  below = λ i k e. ground arith;
  valid = λ k. tt;
}

some_tag : ¬ (tag_a ≡ [])
some_tag h = ground arith

reported : valuable_result (timed five_calls) ≡ 5
unfolding valuable_result timed add_sample
reported = refl

measure_lem_example :
    (q : Profiler) × (r : Profiler) × (profile_begin 3 tag_a 10 new_profiler ≡ some q)
    × (profile_end 3 tag_a 15 q ≡ some r)
    × Sampled 3 tag_a new_profiler r (add_sample 15 (restarted 10 none))
measure_lem_example =
    measure_lem 3 tag_a some_tag 10 15 new_profiler (omega arith) new_profiler-IsProfiler
      (inr (refl, omega arith))

average_lem_example :
    (q : Profiler) × (d : ProfileData) × (time_all 3 tag_a five_calls new_profiler ≡ some q)
    × (sample 3 tag_a q ≡ some d)
    × (valuable_result d ≡ total (middle (sort (working_times five_calls))))
    × (d.call ≡ 5)
average_lem_example =
    average_lem 3 tag_a some_tag (omega arith) five_calls new_profiler new_profiler-IsProfiler
      (inr (refl, omega arith)) refl
      (
        omega arith,
        omega arith,
        (
          omega arith,
          omega arith,
          (omega arith, omega arith, (omega arith, omega arith, (omega arith, omega arith, tt))),
        ),
      )
      (omega arith) (omega arith) (omega arith)

-- A profiler whose threads have one element in use each.
abbrev in_use : Profiler
in_use = record {
  profile_manager = λ k. record new_info { tag_name = 98 ∷ []; used = true } ∷ [];
  tables = 1;
  tls = λ id. some 0;
}

full_lem_example :
    (q : Profiler) × (profile_begin 3 tag_a 10 in_use ≡ some q) × (profile_end 3 tag_a 15 q ≡ none)
full_lem_example = full_lem 3 tag_a 10 15 0 in_use refl refl refl

written :
    profile_data_out_text (record in_use {
      profile_manager = λ k.
          record new_info { tag_name = tag_a; used = true; sample_data = timed five_calls } ∷ [];
    })
    ≡ (record {
      thread = 0;
      name = tag_a;
      value = 5;
      divisor = 1;
      least = 1;
      greatest = 9;
      calls = 5;
    }
        ∷ [])
      ∷ []
unfolding profile_data_out_text valuable_result timed add_sample
written = refl
