-- ===== src/TimeUtil/Tests.antt =====
-- One minute and a second past one o'clock on the second day.
use mmoserver.Shared.{◌≡◌, none, refl}
use mmoserver.TimeUtil.{TimeUtil, get_current_hour_and_minute}

abbrev free : TimeUtil
free = record { now_local_time_point = none; span_time = 0 }

hour_and_minute_run : get_current_hour_and_minute 90061000 free ≡ 101
unfolding get_current_hour_and_minute
hour_and_minute_run = refl
