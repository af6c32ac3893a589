-- ===== src/Profiler/Trimmed.antt =====
-- What Profiler.cpp reports of the times of a tag: their sum without the two greatest and the two
-- smallest.
use mmoserver.Shared.{
  refl, subst, sym, ℕ, ◌-◌, ◌^◌, ◌<◌, ◌≤◌, ◌≡◌, List, [], ◌∷◌, if◌then◌else◌, arith, length, get_or,
  ◌+◌, ◌%◌,
}
use mmoserver.Profiler.Table.{
  max_int64, min_int64, less, ProfileData, new_data, add_sample, set_max, set_min, valuable_result,
  minus,
}
use mmoserver.Profiler.Extremes.{
  sort, total, last_or, without_last, IsTime, sort-IsTime, middle, first-insert, second-insert,
  total-middle, greatest-insert, length-sort, sort-IsFrom, total-sort, before-greatest-insert,
}

-- The sample data after calls of ProfileBegin and ProfileEnd, the latest first, by the times that
-- they read from the clock.
unfoldable pub timed : List (ℕ × ℕ) → ProfileData
timed [] = new_data
timed ((begin_time, end_time) ∷ calls) =
    add_sample end_time (record (timed calls) { start_time = begin_time })

abbrev pub working_times : List (ℕ × ℕ) → List ℕ
working_times [] = []
working_times ((begin_time, end_time) ∷ calls) = (end_time - begin_time) ∷ working_times calls

-- The clock does not go back.
abbrev pub IsClock : List (ℕ × ℕ) → Type 0
IsClock [] = Unit
IsClock ((begin_time, end_time) ∷ calls) =
    (begin_time ≤ end_time) × (end_time < 2 ^ 63) × IsClock calls

record IsSummary (d : ProfileData) (ws : List ℕ) : Type 0 where
  pub total_time : d.total_time ≡ total ws
  pub call : d.call ≡ length ws
  pub min_0 : d.min_0 ≡ get_or (sort ws) 0 max_int64
  pub min_1 : d.min_1 ≡ get_or (sort ws) 1 max_int64
  pub max_0 : d.max_0 ≡ last_or min_int64 (sort ws)
  pub max_1 : d.max_1 ≡ last_or min_int64 (without_last (sort ws))

working-IsTime : (calls : List (ℕ × ℕ)) → IsClock calls → IsTime (working_times calls)
working-IsTime [] h = tt
working-IsTime ((b, e) ∷ calls) h = (omega (arith, h.0, h.1), working-IsTime calls h.2)

-- The fields behind set_max and set_min.
module _ (w : ℕ) (d : ProfileData) where
  same_total : (set_min w (set_max w d)).total_time ≡ d.total_time
  same_total = ground arith

  same_call : (set_min w (set_max w d)).call ≡ d.call
  same_call = ground arith

  new_min_0 : (set_min w (set_max w d)).min_0 ≡ (if less w d.min_0 then w else d.min_0)
  new_min_0 = ground arith

  new_min_1 :
      (set_min w (set_max w d)).min_1
      ≡ (if less w d.min_0 then d.min_0 else (if less w d.min_1 then w else d.min_1))
  new_min_1 = ground arith

  new_max_0 : (set_min w (set_max w d)).max_0 ≡ (if less d.max_0 w then w else d.max_0)
  new_max_0 = ground arith

  new_max_1 :
      (set_min w (set_max w d)).max_1
      ≡ (if less d.max_0 w then d.max_0 else (if less d.max_1 w then w else d.max_1))
  new_max_1 = ground arith

abbrev counted : ℕ → ProfileData → ProfileData
counted w d = record d { total_time = (d.total_time + w) % 2 ^ 64; call = (d.call + 1) % 2 ^ 64 }

set-IsSummary :
    (w : ℕ) (d : ProfileData) (ws : List ℕ)
    → IsTime (w ∷ ws)
    → total (w ∷ ws) < 2 ^ 63
    → length ws < 2 ^ 63
    → IsSummary d ws
    → IsSummary (set_min w (set_max w (counted w d))) (w ∷ ws)
set-IsSummary w d ws times small few h =
    let in_time = sort-IsTime ws times.1 in
    record {
      total_time = omega (arith, same_total w (counted w d), h.total_time, small);
      call = omega (arith, same_call w (counted w d), h.call, few);
      min_0 =
          ground (arith, new_min_0 w (counted w d), first-insert w (sort ws) times.0 in_time, h);
      min_1 =
          ground (arith, new_min_1 w (counted w d), second-insert w (sort ws) times.0 in_time, h);
      max_0 = ground (
        arith,
        new_max_0 w (counted w d),
        greatest-insert w times.0 (sort ws) in_time (sort-IsFrom ws),
        h,
      );
      max_1 = ground (
        arith,
        new_max_1 w (counted w d),
        before-greatest-insert w times.0 (sort ws) in_time (sort-IsFrom ws),
        h,
      );
    }

timed-IsSummary :
    (calls : List (ℕ × ℕ))
    → IsClock calls
    → total (working_times calls) < 2 ^ 63
    → length (working_times calls) < 2 ^ 63
    → IsSummary (timed calls) (working_times calls)
unfolding timed add_sample
timed-IsSummary [] clock small few = record {
  total_time = refl;
  call = refl;
  min_0 = refl;
  min_1 = refl;
  max_0 = refl;
  max_1 = refl;
}
timed-IsSummary ((b, e) ∷ calls) clock small few =
    let d = record (timed calls) { start_time = b } in
    let same : minus e b ≡ e - b = ground (arith, clock.0, clock.1) in
    let now = timed-IsSummary calls clock.2 (omega arith) (omega arith) in
    subst (λ w. IsSummary (set_min w (set_max w (counted w d))) ((e - b) ∷ working_times calls))
      (sym same)
      (set-IsSummary (e - b) d (working_times calls) (working-IsTime ((b, e) ∷ calls) clock) small
        (omega arith)
        (record {
          total_time = now.total_time;
          call = now.call;
          min_0 = now.min_0;
          min_1 = now.min_1;
          max_0 = now.max_0;
          max_1 = now.max_1;
        }))

-- While the clock does not go back and all times together are below 2 ^ 63, the value that is divided
-- for the average of a tag with at least four calls is the sum of the times, sorted, without the first
-- two and the last two, and the number of calls is that of the times.
pub trimmed_lem :
    (calls : List (ℕ × ℕ))
    → IsClock calls
    → total (working_times calls) < 2 ^ 63
    → length (working_times calls) < 2 ^ 63
    → 4 ≤ length (working_times calls)
    → (valuable_result (timed calls) ≡ total (middle (sort (working_times calls))))
      × ((timed calls).call ≡ length (working_times calls))
unfolding valuable_result
trimmed_lem calls clock small few enough =
    let h = timed-IsSummary calls clock small few in
    let ws = working_times calls in
    (
      ground (
        arith,
        h,
        total-middle max_int64 min_int64 (sort ws) (omega (arith, length-sort ws, enough)),
        total-sort ws,
        small,
      ),
      h.call,
    )
