-- ===== src/Scheduler/Calendar/Dates.antt =====
-- Every day number has a date of the calendar.
use miss_raspberry_agent.Prelude.{
  ltb, ltb→lt, Bool-cases, ℕ, zero, suc, ◌+◌, ◌-◌, ◌*◌, ◌/◌, ◌%◌, ◌≤◌, ◌<◌, ◌≡◌, refl, sym, ap, ◌∙◌,
  inl, inr, true, arith,
}
use native.Mathlib.Nat.{add-zero}
use miss_raspberry_agent.Scheduler.Calendar.{
  Date, is_leap, days_in_year, days_in_month, days_before_year, days_before_month, day_number,
  find_year, find_month, date_of,
}
use miss_raspberry_agent.Scheduler.Calendar.Days.{
  days_before_year-suc, days_before_year-cycle, days_before_month-suc, first_month,
  day_number-date_of,
}

pub record IsDate (d : Date) : Type 0 where
  pub first_year : 1 ≤ d.year
  pub first_month_le : 1 ≤ d.month
  pub month_le : d.month ≤ 12
  pub first_day : 1 ≤ d.day
  pub day_le : d.day ≤ days_in_month d.year d.month

twelve_months : (y : ℕ) → days_before_month y 12 + 31 ≡ days_in_year y
unfolding days_before_month days_in_year
twelve_months y = ground arith

december : (y : ℕ) → days_in_month y 12 ≡ 31
unfolding days_in_month
december y = refl

pub find_year_bounds :
    (fuel y n : ℕ)
    → 1 ≤ y
    → days_before_year y + n < days_before_year (y + fuel)
    → (y ≤ (find_year fuel y n).0) × ((find_year fuel y n).1 < days_in_year (find_year fuel y n).0)
unfolding find_year
find_year_bounds zero y n h lt = absurd (omega (arith, ap days_before_year (add-zero y)))
find_year_bounds (suc fuel) y n h lt =
    ground (arith, find_year_bounds fuel (y + 1) (n - days_in_year y), days_before_year-suc y h)

pub find_month-IsDate :
    (fuel y m n : ℕ)
    → 1 ≤ y
    → 1 ≤ m
    → m + fuel ≡ 12
    → days_before_month y m + n < days_in_year y
    → IsDate (find_month fuel y m n)
unfolding find_month
find_month-IsDate zero y m n hy hm e lt =
    let last : m ≡ 12 = omega arith in
    record {
      first_year = hy;
      first_month_le = hm;
      month_le = omega arith;
      first_day = omega arith;
      day_le = omega (
        arith,
        ap (days_in_month y) last,
        ap (days_before_month y) last,
        december y,
        twelve_months y,
      );
    }
find_month-IsDate (suc fuel) y m n hy hm e lt = elim (Bool-cases (ltb n (days_in_month y m))) [
  | inl here ↦
      rw (here, find_month)
        (record {
          first_year = hy;
          first_month_le = hm;
          month_le = omega arith;
          first_day = omega arith;
          day_le = omega (arith, ltb→lt n (days_in_month y m) here);
        })
  | inr later ↦
      rw (later, find_month)
        (find_month-IsDate fuel y (m + 1) (n - days_in_month y m) hy (omega arith) (omega arith)
          (ground (arith, days_before_month-suc y m hm)))
]

-- The date of a day number is a date of the calendar.
pub date_of-IsDate : (n : ℕ) → IsDate (date_of n)
unfolding date_of
date_of-IsDate n =
    let y0 : ℕ = 400 * (n / 146097) + 1 in
    let q = n / 146097 in
    let end : days_before_year (y0 + 400) ≡ days_before_year (400 * (q + 1) + 1) =
      ap days_before_year (omega arith) in
    let bounds =
      find_year_bounds 400 y0 (n % 146097) (omega arith)
        (omega (arith, end, days_before_year-cycle q, days_before_year-cycle (q + 1))) in
    find_month-IsDate 11 _ 1 _ (omega (arith, bounds.0)) (omega arith) refl
      (omega (arith, bounds.1, first_month (find_year 400 y0 (n % 146097)).0))

leap_month : (y : ℕ) → 29 ≤ days_in_month y 2 → is_leap y ≡ true
unfolding days_in_month
leap_month y h = ground arith

before_march : (y : ℕ) → days_before_month y 2 ≡ 31
unfolding days_before_month
before_march y = refl

leap_date :
    (d : Date)
    → IsDate d
    → d.month ≡ 2
    → d.day ≡ 29
    → (is_leap d.year ≡ true) × (day_number d ≡ days_before_year d.year + 59)
leap_date d v month day = (
  leap_month d.year (omega (arith, ap (days_in_month d.year) month)),
  unfold day_number in omega (arith, ap (days_before_month d.year) month, before_march d.year),
)

-- A day whose date is a 29 February lies in a leap year, 59 days behind its first day.
pub leap_day :
    (n : ℕ)
    → (date_of n).month ≡ 2
    → (date_of n).day ≡ 29
    → (is_leap (date_of n).year ≡ true) × (n ≡ days_before_year (date_of n).year + 59)
leap_day n month day =
    let (leap, place) = leap_date (date_of n) (date_of-IsDate n) month day in
    (leap, sym (day_number-date_of n) ∙ place)
