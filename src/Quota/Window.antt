-- ===== src/Quota/Window.antt =====
-- cmd/api/access.go: quotaWindowSpec and quotaRetryAfterSeconds. A time is a number of nanoseconds
-- from the start of year 1 in UTC, which is where Go's Truncate counts from.
pub mod Bounds
pub mod Retry
use daiki_aipass_backend.Prelude.{
  ℕ, suc, ◌+◌, ◌-◌, ◌*◌, ◌/◌, ◌%◌, ◌≤◌, ◌<◌, max, String, Option, none, some, ◌||◌, str_eq, leb,
  ◌==◌, if◌then◌else◌,
}
use daiki_aipass_backend.Prelude.Int.{ℤ, pos, pos_part, neg_part, is_pos, wrap64, neg, scale}
use daiki_aipass_backend.Quota.Calendar.{first_of_month, month_of_day}

abbrev pub second : ℕ
second = 1_000_000_000

abbrev pub hour : ℕ
hour = 3_600_000_000_000

abbrev pub day : ℕ
day = 86_400_000_000_000

-- time.Unix(0, 0): 719162 days after the start of year 1.
abbrev pub unix_epoch : ℕ
unix_epoch = 719_162 * day

-- Time.Add of a Duration; the times of the program lie more than the longest Duration after year 1.
abbrev pub add_time : ℕ → ℤ → ℕ
add_time t d = t + pos_part d - neg_part d

-- Time.Truncate
abbrev pub truncate : ℕ → ℤ → ℕ
truncate t d = if is_pos d then t - t % pos_part d else t

-- `if count <= 0 { count = 1 }`
abbrev pub at_least_one : ℤ → ℕ
at_least_one count = if is_pos count then pos_part count else 1

-- A Duration of `n` units; Go multiplies in int64.
abbrev pub duration : ℤ → ℕ → ℤ
duration n unit = wrap64 (scale n unit)

abbrev pub or_hour : Option ℤ → ℤ
or_hour none = pos 3600
or_hour (some s) = s

unfoldable pub hour_window : ℕ → ℕ → ℕ × Option ℕ
hour_window count now =
    let span = duration (pos count) hour in
    let start = truncate now span in (start, some (add_time start span))

unfoldable pub day_window : ℕ → ℕ → ℕ × Option ℕ
day_window count now = let today = now / day in (today * day, some ((today + count) * day))

-- Day 0 is a Monday, so Weekday (Sunday is 0) of day `d` is (d + 1) % 7.
unfoldable pub week_window : ℕ → ℕ → ℕ × Option ℕ
week_window count now =
    let today = now / day in
    let since_monday = ((today + 1) % 7 + 6) % 7 in
    let base = today - since_monday in (base * day, some ((base + 7 * count) * day))

unfoldable pub month_window : ℕ → ℕ → ℕ × Option ℕ
month_window count now =
    let month = month_of_day (now / day) in
    (first_of_month month * day, some (first_of_month (month + count) * day))

unfoldable pub rolling_window : Option ℤ → ℕ → ℕ × Option ℕ
rolling_window seconds now =
    let n = or_hour seconds in
    (add_time now (duration (wrap64 (neg n)) second), some (add_time now (duration n second)))

unfoldable pub quota_window_spec : String → ℤ → Option ℤ → ℕ → ℕ × Option ℕ
quota_window_spec kind count seconds now =
    let n = at_least_one count in
    if str_eq kind "hour"
    then hour_window n now
    else if str_eq kind "day"
    then day_window n now
    else if str_eq kind "week"
    then week_window n now
    else if str_eq kind "month"
    then month_window n now
    else if str_eq kind "rolling" || str_eq kind "custom"
    then rolling_window seconds now
    else (unix_epoch, none)

-- `int(until / time.Second)`, one more if a fraction is left; at least 1 once there is a reset.
unfoldable pub quota_retry_after_seconds : Option ℕ → ℕ → ℕ
quota_retry_after_seconds none now = 0
quota_retry_after_seconds (some reset) now =
    let until = reset - now in
    if leb reset now then 1 else max 1 (until / second + (if until % second == 0 then 0 else 1))
