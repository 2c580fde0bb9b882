-- ===== src/Quota/Window/Bounds.antt =====
-- What the quota windows of Quota/Window guarantee.
use daiki_aipass_backend.Prelude.{
  ℕ, ◌+◌, ◌-◌, ◌*◌, ◌/◌, ◌≤◌, ◌<◌, ◌≡◌, String, Option, none, some, ◌||◌, str_eq, arith, ◌⊎◌,
  if_both,
}
use daiki_aipass_backend.Prelude.Int.{
  ℤ, pos, negsuc, pos_part, neg_part, wrap64, neg, scale, two_63, wrap64_of_IsInt64,
}
use daiki_aipass_backend.Quota.Calendar.{month_of_day, month_of_day_holds, first_of_month_grows}
use daiki_aipass_backend.Quota.Window.{
  hour, day, second, unix_epoch, duration, at_least_one, or_hour, hour_window, day_window,
  week_window, month_window, rolling_window, quota_window_spec,
}

-- The window that the kinds with a reset open round `now`.
abbrev pub Contains : ℕ × Option ℕ → ℕ → Type 0
Contains (start, none) now = start ≤ now
Contains (start, some reset) now = (start ≤ now) × (now < reset)

duration_small : (n u : ℕ) → n * u < two_63 → duration (pos n) u ≡ pos (n * u)
unfolding scale
duration_small n u h =
    let e : scale (pos n) u ≡ pos (n * u) = ground arith in
    rw (e, wrap64_of_IsInt64 (pos (n * u)) (omega arith))

duration-neg_small :
    (n u : ℕ)
    → n < two_63
    → n * u < two_63
    → (pos_part (duration (wrap64 (neg (pos n))) u) ≡ 0)
      × (neg_part (duration (wrap64 (neg (pos n))) u) ≡ n * u)
unfolding scale neg
duration-neg_small n u k h =
    let a : wrap64 (neg (pos n)) ≡ neg (pos n) = wrap64_of_IsInt64 (neg (pos n)) (ground arith) in
    let b : wrap64 (scale (neg (pos n)) u) ≡ scale (neg (pos n)) u =
      wrap64_of_IsInt64 (scale (neg (pos n)) u) (ground arith) in
    rw (a, b) (ground arith)

hour_window_holds : (n now : ℕ) → 0 < n → n ≤ 8760 → Contains (hour_window n now) now
unfolding hour_window
hour_window_holds n now h k = rw (duration_small n hour (omega arith)) (grind arith)

day_window_holds : (n now : ℕ) → 0 < n → Contains (day_window n now) now
unfolding day_window
day_window_holds n now h = omega arith

week_window_holds : (n now : ℕ) → 0 < n → Contains (week_window n now) now
unfolding week_window
week_window_holds n now h = omega arith

month_window_holds : (n now : ℕ) → 0 < n → Contains (month_window n now) now
unfolding month_window
month_window_holds n now h =
    let m = month_of_day (now / day) in
    let split : m + n ≡ m + 1 + (n - 1) = omega arith in
    rw split (omega (arith, month_of_day_holds (now / day), first_of_month_grows (m + 1) (n - 1)))

rolling_window_holds :
    (n now : ℕ) → 0 < n → n * second < two_63 → Contains (rolling_window (some (pos n)) now) now
unfolding rolling_window
rolling_window_holds n now h k =
    rw (duration_small n second k) (omega (arith, duration-neg_small n second (omega arith) k))

-- A span of whole seconds that a Duration holds.
abbrev pub IsSpan : ℤ → Type 0
IsSpan n = (0 < pos_part n) × (pos_part n * second < two_63)

at_least_one-pos : (count : ℤ) → 0 < at_least_one count
at_least_one-pos count = ground arith

rolling_any :
    (seconds : Option ℤ) (now : ℕ)
    → IsSpan (or_hour seconds)
    → Contains (rolling_window seconds now) now
unfolding rolling_window
rolling_any none now h = rolling_window_holds 3600 now (omega arith) (omega arith)
rolling_any (some (pos n)) now h = rolling_window_holds n now h.0 h.1
rolling_any (some (negsuc n)) now h = absurd (omega arith)

module _ (seconds : Option ℤ) (now : ℕ) (span : IsSpan (or_hour seconds))
    (modern : unix_epoch ≤ now) where
  -- For every kind of interval, known or not, with a count of at most 8760 and a span that a
  -- Duration holds, the window that quotaWindowSpec gives starts no later than now, and its reset,
  -- if it has one, lies after now.
  pub quota_window-Contains :
      (kind : String) (count : ℤ)
      → pos_part count ≤ 8760
      → Contains (quota_window_spec kind count seconds now) now
  unfolding quota_window_spec
  quota_window-Contains kind count few =
      let n = at_least_one count in
      let n_pos = at_least_one-pos count in
      let P = λ (w : ℕ × Option ℕ). Contains w now in
      if_both P (str_eq kind "hour") (hour_window_holds n now n_pos (ground arith)) (
        if_both P (str_eq kind "day") (day_window_holds n now n_pos) (
          if_both P (str_eq kind "week") (week_window_holds n now n_pos) (
            if_both P (str_eq kind "month") (month_window_holds n now n_pos) (
              if_both P (str_eq kind "rolling" || str_eq kind "custom")
                (rolling_any seconds now span) modern))))

-- Kinds whose windows are fixed in the calendar, with the counts that normalizeQuotaInterval leaves.
abbrev pub IsFixed : String → ℕ → Type 0
IsFixed kind n =
    (kind ≡ "hour") ⊎ (((kind ≡ "day") ⊎ ((kind ≡ "week") ⊎ (kind ≡ "month"))) × (n ≡ 1))
