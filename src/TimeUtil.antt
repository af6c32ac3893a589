-- ===== src/TimeUtil.antt =====
-- TimeUtil of ServerCore/Utill/TimeUtil.h and TimeUtil.cpp. Times are milliseconds of local time since
-- the epoch, not before it. What the clock gives is a parameter.
mod Tests
use mmoserver.Shared.{refl, ℕ, ◌+◌, ◌*◌, ◌/◌, ◌%◌, ◌≤◌, ◌<◌, ◌≡◌, Option, none, some, arith}

abbrev pub minutes : ℕ
minutes = 60 * 1000

abbrev pub hours : ℕ
hours = 60 * minutes

abbrev pub days : ℕ
days = 24 * hours

-- The time that FixNow has kept, and the minutes that are added to every time.
pub record TimeUtil : Type 0 where
  pub now_local_time_point : Option ℕ
  pub span_time : ℕ

unfoldable pub from_epoch_time : ℕ → ℕ
from_epoch_time epoch_time = epoch_time / 1000 * 1000 + epoch_time % 1000

abbrev pub to_epoch_time : ℕ → ℕ
to_epoch_time time_point = time_point

abbrev pub fix_now : ℕ → TimeUtil → TimeUtil
fix_now clock u = record u { now_local_time_point = some clock }

abbrev pub now : ℕ → TimeUtil → ℕ
now clock u = elim u.now_local_time_point [
  | some t ↦ t + u.span_time * minutes
  | none ↦ clock + u.span_time * minutes
]

abbrev pub get_epoch_time : ℕ → TimeUtil → ℕ → ℕ
get_epoch_time clock u span_time = to_epoch_time (now clock u) + span_time

abbrev pub get_epoch_time_for_network : ℕ → ℕ → ℕ
get_epoch_time_for_network clock span_time = to_epoch_time clock + span_time

unfoldable pub get_current_hour_and_minute : ℕ → TimeUtil → ℕ
get_current_hour_and_minute clock u =
    let since_time = (clock + u.span_time * minutes) % days in
    since_time / hours * 100 + since_time % hours / minutes

unfoldable pub get_reset_time : ℕ → TimeUtil → ℕ → ℕ → ℕ
get_reset_time clock u hour minute =
    to_epoch_time (now clock u / days * days + hour * hours + minute * minutes)

unfoldable pub get_next_reset_time : ℕ → TimeUtil → ℕ → ℕ → ℕ
get_next_reset_time clock u hour minute =
    to_epoch_time (now clock u / days * days + days + hour * hours + minute * minutes)

from_epoch_time_lem : (epoch_time : ℕ) → to_epoch_time (from_epoch_time epoch_time) ≡ epoch_time
unfolding from_epoch_time
from_epoch_time_lem epoch_time = omega arith

hour_and_minute : (h m : ℕ) → m < 100 → ((h * 100 + m) / 100 ≡ h) × ((h * 100 + m) % 100 ≡ m)
hour_and_minute h m lt = (omega arith, omega arith)

time_of_day :
    (t : ℕ)
    → (t % days % hours / minutes < 100)
      × (t / days * days + t % days / hours * hours + t % days % hours / minutes * minutes ≤ t)
      × (t
          < t / days * days
            + t % days / hours * hours
            + t % days % hours / minutes * minutes
            + minutes)
time_of_day t = (omega arith, omega arith, omega arith)

-- While no time is kept, the reset time of the hour and minute that GetCurrentHourAndMinute gives is at
-- most a minute before the present, and the next reset time is a day behind the reset time.
reset_time_lem :
    (clock hour minute : ℕ) (u : TimeUtil)
    → u.now_local_time_point ≡ none
    → let present = get_current_hour_and_minute clock u in
      (get_reset_time clock u (present / 100) (present % 100) ≤ now clock u)
      × (now clock u < get_reset_time clock u (present / 100) (present % 100) + minutes)
      × (get_next_reset_time clock u hour minute ≡ get_reset_time clock u hour minute + days)
unfolding get_current_hour_and_minute get_reset_time get_next_reset_time
reset_time_lem clock hour minute u free =
    let t = clock + u.span_time * minutes in
    let (few, low, high) = time_of_day t in
    let (hour_is, minute_is) =
      hour_and_minute (t % days / hours) (t % days % hours / minutes) few in
    let present_is : now clock u ≡ t = rw free refl in
    rw (present_is, hour_is, minute_is) (low, high, omega arith)
