-- ===== src/Scheduler/Calendar.antt =====
-- What internal/scheduler uses of Go's package `time`. All times of the program are in Asia/Shanghai,
-- which has been UTC+8 since 1992: a time is its wall clock there, in nanoseconds since
-- 0001-01-01 00:00, so comparing two times compares their wall clocks.
pub mod Days
pub mod Dates
use miss_raspberry_agent.Prelude.{
  ltb, ◌==◌, if◌then◌else◌, ℤ, pos_part, neg_part, sub_ℕ, ℕ, zero, suc, ◌+◌, ◌-◌, ◌*◌, ◌/◌, ◌%◌,
  Bool, not, ◌&&◌, ◌||◌,
}

pub record Time : Type 0 where
  pub wall : ℕ

abbrev pub second_ns : ℕ
second_ns = 1_000_000_000

abbrev pub minute_ns : ℕ
minute_ns = 60_000_000_000

abbrev pub day_ns : ℕ
day_ns = 86_400_000_000_000

-- A date of the proleptic Gregorian calendar, from year 1 on.
pub record Date : Type 0 where
  pub year : ℕ
  pub month : ℕ
  pub day : ℕ

unfoldable pub is_leap : ℕ → Bool
is_leap y = (y % 4 == 0) && (not (y % 100 == 0) || (y % 400 == 0))

unfoldable pub days_in_year : ℕ → ℕ
unfolding is_leap
days_in_year y = if is_leap y then 366 else 365

unfoldable pub days_in_month : ℕ → ℕ → ℕ
unfolding is_leap
days_in_month y m =
    if m == 2
    then (if is_leap y then 29 else 28)
    else if (m == 4) || (m == 6) || (m == 9) || (m == 11)
    then 30
    else 31

-- The days from 0001-01-01 to the first day of year `y`.
unfoldable pub days_before_year : ℕ → ℕ
days_before_year y = let p = y - 1 in 365 * p + p / 4 - p / 100 + p / 400

-- The days of year `y` before month `m`, for `m` from 1 on.
unfoldable pub days_before_month : ℕ → ℕ → ℕ
unfolding days_in_month
days_before_month y zero = 0
days_before_month y (suc zero) = 0
days_before_month y (suc (suc m)) = days_before_month y (suc m) + days_in_month y (suc m)

-- The day number of a date, from 0 for 0001-01-01. A day past the month's end runs into the next
-- month, as time.Date normalises it.
unfoldable pub day_number : Date → ℕ
unfolding days_before_year days_before_month
day_number d = days_before_year d.year + days_before_month d.year d.month + (d.day - 1)

-- The year, from `y` on, in which the `n`th day from the start of `y` lies, and the day's place in it.
unfoldable pub find_year : ℕ → ℕ → ℕ → ℕ × ℕ
unfolding days_in_year
find_year zero y n = (y, n)
find_year (suc fuel) y n =
    let later = find_year fuel (y + 1) (n - days_in_year y) in
    if ltb n (days_in_year y) then (y, n) else later

unfoldable pub find_month : ℕ → ℕ → ℕ → ℕ → Date
unfolding days_in_month
find_month zero y m n = record { year = y; month = m; day = n + 1 }
find_month (suc fuel) y m n =
    let later = find_month fuel y (m + 1) (n - days_in_month y m) in
    if ltb n (days_in_month y m) then record { year = y; month = m; day = n + 1 } else later

-- The date of a day number: 146097 days make 400 years.
unfoldable pub date_of : ℕ → Date
date_of n = let (y, r) = find_year 400 (400 * (n / 146097) + 1) (n % 146097) in find_month 11 y 1 r

-- t.Date()
unfoldable pub date : Time → Date
unfolding date_of
date t = date_of (t.wall / day_ns)

-- t.Weekday(), with Sunday as 0. 0001-01-01 is a Monday.
unfoldable pub weekday : Time → ℕ
weekday t = (t.wall / day_ns + 1) % 7

-- time.Date(y, m, d, hour, minute, 0, 0, loc)
unfoldable pub time_at : Date → ℕ → ℕ → Time
unfolding day_number
time_at d hour minute = record { wall = day_number d * day_ns + (hour * 60 + minute) * minute_ns }

-- t.AddDate(0, 0, n)
unfoldable pub add_days : Time → ℕ → Time
add_days t n = record { wall = t.wall + n * day_ns }

-- t.Add(d); the source adds positive durations.
unfoldable pub add_duration : Time → ℤ → Time
add_duration t d = record { wall = t.wall + pos_part d - neg_part d }

-- t.Unix(): 62135596800 seconds lie between 0001-01-01 and 1970-01-01, and local time is 8 hours ahead.
unfoldable pub unix : Time → ℤ
unix t = sub_ℕ (t.wall / second_ns) (62_135_596_800 + 28_800)

-- a.Before(b), b.After(a)
abbrev pub before : Time → Time → Bool
before a b = ltb a.wall b.wall
