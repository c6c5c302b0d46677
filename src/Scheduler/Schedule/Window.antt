-- ===== src/Scheduler/Schedule/Window.antt =====
-- Next finds a firing: the bounds of its loops against the gaps between firings.
use miss_raspberry_agent.Prelude.{
  ℕ, zero, suc, ◌+◌, ◌-◌, ◌*◌, ◌/◌, ◌%◌, ◌≤◌, ◌<◌, ◌≡◌, refl, ap, ◌∙◌, inl, true, false, Option,
  none, some, List, [], ◌∷◌, arith,
}
use native.Mathlib.Nat.{add-zero}
use miss_raspberry_agent.Scheduler.Calendar.{
  Time, date, date_of, weekday, add_days, day_ns, minute_ns, is_leap, days_before_year,
}
use miss_raspberry_agent.Scheduler.Calendar.Dates.{leap_day}
use miss_raspberry_agent.Scheduler.Schedule.{
  daily, weekly, yearly, Schedule, MonthDay, repeats, fires_on, contains_weekday,
  contains_month_day, scan_days, search_days, next,
}
use miss_raspberry_agent.Scheduler.Schedule.Firing.{
  midnight, IsFiring, IsDayTimes, fires_on-add_days,
}
use miss_raspberry_agent.Scheduler.Schedule.Search.{NextSpec, next_lem, next-scan}

-- A firing after `now` within the days that are searched makes Next return a time.
found_of_firing :
    (s : Schedule) (now u : Time) (r : Option Time) (f : IsFiring s u)
    → NextSpec s now r
    → now.wall < u.wall
    → f.day < now.wall / day_ns + search_days s.kind
    → (t : Time) × (r ≡ some t)
found_of_firing s now u (some t) f spec after near = (t, refl)
found_of_firing s now u none f spec after near = absurd (omega (arith, spec u f after))

-- The firing at the minute `m`, `k` days after the day of `now`.
abbrev on_day_after : Time → ℕ → ℕ → Time
on_day_after now k m = record { wall = (now.wall / day_ns + k) * day_ns + m * minute_ns }

-- Days to go from day `d + 1` to the next day `w` of the week, and one more.
abbrev days_to : ℕ → ℕ → ℕ
days_to d w = 1 + (w + 7 - (d + 2) % 7) % 7

-- The first weekday of the list is one of the seven.
abbrev HasWeekday : List ℕ → Type 0
HasWeekday [] = ⊥
HasWeekday (w ∷ _) = w < 7

weekday-days_to :
    (d w : ℕ) (ws : List ℕ)
    → w < 7
    → contains_weekday (w ∷ ws) (weekday (midnight (d + days_to d w))) ≡ true
unfolding contains_weekday weekday
weekday-days_to d w ws h =
    let same : (((d + days_to d w) * day_ns) / day_ns + 1) % 7 ≡ w = omega arith in
    rw same (ground arith)

module _ (s : Schedule) (now : Time) (m : ℕ) (ms : List ℕ) (times : s.times ≡ m ∷ ms)
    (h : IsDayTimes (m ∷ ms)) where
  pub daily_found : s.kind ≡ daily → (t : Time) × (next s now ≡ some t)
  unfolding fires_on repeats search_days
  daily_found kind =
      found_of_firing s now (on_day_after now 1 m) (next s now)
        (record {
          day = now.wall / day_ns + 1;
          minute = m;
          on_day = rw (kind, fires_on);
          listed = rw times (inl refl);
          moment = refl;
        })
        (next_lem s now (rw (kind, repeats)) (rw times h)) (omega arith)
        (rw (kind, search_days) (omega arith))

  pub weekly_found :
      (w : ℕ) (ws : List ℕ)
      → s.kind ≡ weekly
      → s.days ≡ w ∷ ws
      → w < 7
      → (t : Time) × (next s now ≡ some t)
  unfolding fires_on repeats search_days
  weekly_found w ws kind days lt =
      let k = days_to (now.wall / day_ns) w in
      found_of_firing s now (on_day_after now k m) (next s now)
        (record {
          day = now.wall / day_ns + k;
          minute = m;
          on_day = rw (kind, fires_on, days) (weekday-days_to (now.wall / day_ns) w ws lt);
          listed = rw times (inl refl);
          moment = refl;
        })
        (next_lem s now (rw (kind, repeats)) (rw times h)) (omega arith)
        (rw (kind, search_days) (omega arith))

scan_days-none :
    (left off : ℕ) (s : Schedule) (now : Time)
    → ((i : ℕ) → i < left → fires_on s (midnight (now.wall / day_ns + (off + i))) ≡ false)
    → scan_days left off s now ≡ none
unfolding scan_days
scan_days-none zero off s now idle = refl
scan_days-none (suc left) off s now idle =
    let today : fires_on s (add_days now off) ≡ false =
      fires_on-add_days s now off ∙ rw add-zero at (idle 0 (omega arith)) in
    let rest = scan_days-none left (off + 1) s now (λ i h.
      let e : off + 1 + i ≡ off + (i + 1) = omega arith in rw e (idle (i + 1) (omega arith))) in
    ground arith

abbrev pub leap_day_only : MonthDay
leap_day_only = record { month = 2; day = 29 }

-- Between 29 February 2096 and 29 February 2104 lies no 29 February.
no_leap_day :
    (n : ℕ)
    → days_before_year 2096 + 60 ≤ n
    → n < days_before_year 2104 + 59
    → ¬ (((date_of n).month ≡ 2) × ((date_of n).day ≡ 29))
no_leap_day n from until (month, day) =
    let (leap, place) = leap_day n month day in between (date_of n).year leap place
  where
    between : (y : ℕ) → is_leap y ≡ true → n ≡ days_before_year y + 59 → ⊥
    between y leap place = unfold is_leap days_before_year in ground arith

date-midnight : (n : ℕ) → date (midnight n) ≡ date_of n
unfolding date
date-midnight n = ap date_of (omega arith)

leap_day_idle :
    (s : Schedule) (n : ℕ)
    → s.kind ≡ yearly
    → s.dates ≡ leap_day_only ∷ []
    → ¬ (((date_of n).month ≡ 2) × ((date_of n).day ≡ 29))
    → fires_on s (midnight n) ≡ false
unfolding fires_on contains_month_day
leap_day_idle s n kind dates other = ground (arith, date-midnight n)

-- A schedule for each 29 February that is asked for its next firing on any day from 1 March 2096 to
-- 1500 days before 29 February 2104 has none, though it is a repeating one.
pub next_leap_day_missed :
    (s : Schedule) (now : Time)
    → s.kind ≡ yearly
    → s.dates ≡ leap_day_only ∷ []
    → days_before_year 2096 + 60 ≤ now.wall / day_ns
    → now.wall / day_ns + 1500 ≤ days_before_year 2104 + 59
    → (next s now ≡ none) × (repeats s ≡ true)
unfolding repeats search_days
next_leap_day_missed s now kind dates from until =
    let repeating : repeats s ≡ true = rw (kind, repeats) in
    let idle =
      scan_days-none 1500 0 s now
        (λ i h. leap_day_idle s _ kind dates (no_leap_day _ (omega arith) (omega arith))) in
    let bound : search_days s.kind ≡ 1500 = rw (kind, search_days) in
    (next-scan s now repeating ∙ ap (λ k. scan_days k 0 s now) bound ∙ idle, repeating)
