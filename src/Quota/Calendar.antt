-- ===== src/Quota/Calendar.antt =====
-- What cmd/api/access.go uses of Go's `time` in UTC: days and months of the proleptic Gregorian
-- calendar. A day is counted from Monday 1 January of year 1, a month from that January.
use native.Mathlib.Nat.{add-zero}
use daiki_aipass_backend.Prelude.{
  ℕ, zero, suc, ◌+◌, ◌-◌, ◌*◌, ◌/◌, ◌%◌, ◌≤◌, ◌<◌, ◌≡◌, Bool, not, ◌&&◌, ◌||◌, arith, ltb, ◌==◌,
  if◌then◌else◌, dec_lt,
}

-- Days from the start of year 1 to the start of year `y + 1`.
unfoldable pub days_before_year : ℕ → ℕ
days_before_year y = 365 * y + y / 4 + y / 400 - y / 100

-- Whether year `y + 1` has a 29 February.
unfoldable pub is_leap : ℕ → Bool
is_leap y = ((y + 1) % 4 == 0) && (not ((y + 1) % 100 == 0) || ((y + 1) % 400 == 0))

-- Days before month `m` (0 is January) in a year; 12 is the whole year.
unfoldable pub days_before_month : Bool → ℕ → ℕ
days_before_month leap m =
    let extra : ℕ = if leap then 1 else 0 in
    if m == 0
    then 0
    else if m == 1
    then 31
    else if m == 2
    then 59 + extra
    else if m == 3
    then 90 + extra
    else if m == 4
    then 120 + extra
    else if m == 5
    then 151 + extra
    else if m == 6
    then 181 + extra
    else if m == 7
    then 212 + extra
    else if m == 8
    then 243 + extra
    else if m == 9
    then 273 + extra
    else if m == 10
    then 304 + extra
    else if m == 11
    then 334 + extra
    else 365 + extra

-- The first day of month `n`, counted from January of year 1.
unfoldable pub first_of_month : ℕ → ℕ
first_of_month n = days_before_year (n / 12) + days_before_month (is_leap (n / 12)) (n % 12)

-- The month from `n` on that holds day `d`.
month_from : ℕ → ℕ → ℕ → ℕ
month_from zero n d = n
month_from (suc fuel) n d =
    let later = month_from fuel (n + 1) d in if ltb d (first_of_month (n + 1)) then n else later

-- A year has at most 366 days, so month `d / 366 * 12` does not lie after day `d`.
unfoldable pub month_of_day : ℕ → ℕ
unfolding month_from first_of_month days_before_year days_before_month is_leap
month_of_day d = month_from (d + 1) (d / 366 * 12) d

year_length :
    (y : ℕ) → days_before_year (y + 1) ≡ days_before_year y + days_before_month (is_leap y) 12
unfolding days_before_year is_leap days_before_month
year_length y = ground arith

month_length :
    (leap : Bool) (m : ℕ) → m < 12 → days_before_month leap m + 28 ≤ days_before_month leap (m + 1)
unfolding days_before_month
month_length leap m h = ground arith

first_of_month-suc : (n : ℕ) → first_of_month n + 28 ≤ first_of_month (n + 1)
unfolding first_of_month
first_of_month-suc n = elim (dec_lt (n % 12) 11) [
  | yes h ↦
      let q : (n + 1) / 12 ≡ n / 12 = omega arith in
      let r : (n + 1) % 12 ≡ n % 12 + 1 = omega arith in
      rw (q, r) (omega (arith, month_length (is_leap (n / 12)) (n % 12)))
  | no h ↦
      let q : (n + 1) / 12 ≡ n / 12 + 1 = omega arith in
      let r : (n + 1) % 12 ≡ 0 = omega arith in
      let e : n % 12 ≡ 11 = omega arith in
      rw (q, r, e) (omega (arith, year_length (n / 12), month_length (is_leap (n / 12)) 11))
]

-- With fuel for 28 days a round, the month found holds the day.
month_from_holds :
    (fuel n d : ℕ)
    → first_of_month n ≤ d
    → d < first_of_month n + 28 * fuel
    → let m = month_from fuel n d in (first_of_month m ≤ d) × (d < first_of_month (m + 1))
unfolding month_from
month_from_holds zero n d h k = absurd (omega arith)
month_from_holds (suc fuel) n d h k =
    ground (arith, first_of_month-suc n, month_from_holds fuel (n + 1) d)

first_of_year-le : (y : ℕ) → first_of_month (y * 12) ≤ 366 * y
unfolding first_of_month days_before_year days_before_month
first_of_year-le y =
    let q : y * 12 / 12 ≡ y = omega arith in
    let r : y * 12 % 12 ≡ 0 = omega arith in rw (q, r) (omega arith)

-- Day `d` lies in month `month_of_day d`: the search always finishes.
pub month_of_day_holds :
    (d : ℕ) → (first_of_month (month_of_day d) ≤ d) × (d < first_of_month (month_of_day d + 1))
unfolding month_of_day
month_of_day_holds d =
    month_from_holds (d + 1) (d / 366 * 12) d (omega (arith, first_of_year-le (d / 366)))
      (omega arith)

-- Later months start later.
pub first_of_month_grows : (n k : ℕ) → first_of_month n + 28 * k ≤ first_of_month (n + k)
first_of_month_grows n zero = simp add-zero (omega arith)
first_of_month_grows n (suc k) =
    let e : n + suc k ≡ n + k + 1 = omega arith in
    rw e (omega (arith, first_of_month_grows n k, first_of_month-suc (n + k)))

first_of_month_mono : (m n : ℕ) → m ≤ n → first_of_month m ≤ first_of_month n
first_of_month_mono m n h =
    let e : n ≡ m + (n - m) = omega arith in rw e (omega (arith, first_of_month_grows m (n - m)))

-- The month of a day is the only one that holds it.
pub month_of_day_unique :
    (d m : ℕ) → first_of_month m ≤ d → d < first_of_month (m + 1) → month_of_day d ≡ m
month_of_day_unique d m h k = elim (dec_lt m (month_of_day d)) [
  | yes later ↦ absurd (
      omega
        (arith, month_of_day_holds d, first_of_month_mono (m + 1) (month_of_day d) (omega arith)))
  | no not_later ↦ elim (dec_lt (month_of_day d) m) [
    | yes earlier ↦ absurd (
        omega
          (arith, month_of_day_holds d, first_of_month_mono (month_of_day d + 1) m (omega arith)))
    | no not_earlier ↦ omega arith
  ]
]
