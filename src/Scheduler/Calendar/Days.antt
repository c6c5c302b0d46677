-- ===== src/Scheduler/Calendar/Days.antt =====
-- Day numbers and dates correspond.
use miss_raspberry_agent.Prelude.{ℕ, zero, suc, ◌+◌, ◌-◌, ◌*◌, ◌/◌, ◌%◌, ◌≤◌, ◌≡◌, refl, arith}
use native.Mathlib.Numerals.{add-one}
use miss_raspberry_agent.Scheduler.Calendar.{
  Time, days_in_year, days_in_month, days_before_year, days_before_month, day_number, find_year,
  find_month, date_of, date, time_at, day_ns, minute_ns,
}

pub days_before_year-suc :
    (y : ℕ) → 1 ≤ y → days_before_year (y + 1) ≡ days_before_year y + days_in_year y
unfolding days_before_year days_in_year
days_before_year-suc y h = ground arith

pub days_before_year-cycle : (q : ℕ) → days_before_year (400 * q + 1) ≡ 146097 * q
unfolding days_before_year
days_before_year-cycle q = omega arith

find_year_lem :
    (fuel y n : ℕ)
    → 1 ≤ y
    → days_before_year (find_year fuel y n).0 + (find_year fuel y n).1 ≡ days_before_year y + n
unfolding find_year
find_year_lem zero y n h = refl
find_year_lem (suc fuel) y n h =
    ground (arith, find_year_lem fuel (y + 1) (n - days_in_year y), days_before_year-suc y h)

pub days_before_month-suc :
    (y m : ℕ) → 1 ≤ m → days_before_month y (m + 1) ≡ days_before_month y m + days_in_month y m
unfolding days_before_month
days_before_month-suc y zero h = absurd (omega arith)
days_before_month-suc y (suc m) h = rw add-one

find_month_lem :
    (fuel y m n : ℕ)
    → 1 ≤ m
    → day_number (find_month fuel y m n) ≡ days_before_year y + days_before_month y m + n
unfolding find_month day_number
find_month_lem zero y m n h = omega arith
find_month_lem (suc fuel) y m n h =
    ground
      (arith, find_month_lem fuel y (m + 1) (n - days_in_month y m), days_before_month-suc y m h)

pub first_month : (y : ℕ) → days_before_month y 1 ≡ 0
unfolding days_before_month
first_month y = refl

-- The date of a day number has that day number.
pub day_number-date_of : (n : ℕ) → day_number (date_of n) ≡ n
unfolding date_of
day_number-date_of n =
    let y0 : ℕ = 400 * (n / 146097) + 1 in
    let in_year = find_year_lem 400 y0 (n % 146097) (omega arith) in
    let in_month =
      find_month_lem 11 (find_year 400 y0 (n % 146097)).0 1 (find_year 400 y0 (n % 146097)).1
        (omega arith) in
    omega (
      arith,
      in_year,
      in_month,
      days_before_year-cycle (n / 146097),
      first_month (find_year 400 y0 (n % 146097)).0,
    )

-- The `m`th minute of the day of `t`, as the source computes it from the parts of the date.
pub time_at-date :
    (t : Time) (m : ℕ)
    → (time_at (date t) (m / 60) (m % 60)).wall ≡ t.wall / day_ns * day_ns + m * minute_ns
unfolding time_at date
time_at-date t m = omega (arith, day_number-date_of (t.wall / day_ns))
