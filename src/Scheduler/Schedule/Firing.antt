-- ===== src/Scheduler/Schedule/Firing.antt =====
-- What the firings of a schedule are.
use miss_raspberry_agent.Prelude.{
  All, ℕ, ◌+◌, ◌*◌, ◌/◌, ◌%◌, ◌≤◌, ◌<◌, ◌≡◌, ap, ◌⊎◌, inl, inr, true, List, [], ◌∷◌, arith,
}
use miss_raspberry_agent.Scheduler.Calendar.{
  Time, date, date_of, weekday, add_days, day_ns, minute_ns,
}
use miss_raspberry_agent.Scheduler.Schedule.{Schedule, fires_on}

abbrev pub midnight : ℕ → Time
midnight d = record { wall = d * day_ns }

abbrev pub Listed : ℕ → List ℕ → Type 0
Listed k [] = ⊥
Listed k (m ∷ ms) = (k ≡ m) ⊎ Listed k ms

-- `t` is one of the schedule's minutes on a day that the schedule's rule names.
pub record IsFiring (s : Schedule) (t : Time) : Type 0 where
  pub day : ℕ
  pub minute : ℕ
  pub on_day : fires_on s (midnight day) ≡ true
  pub listed : Listed minute s.times
  pub moment : t.wall ≡ day * day_ns + minute * minute_ns

-- Minutes of a day, in ascending order.
abbrev pub IsDayTimes : List ℕ → Type 0
IsDayTimes [] = Unit
IsDayTimes (m ∷ ms) = (m < 1440) × All (λ k. m ≤ k) ms × IsDayTimes ms

pub same_date : (t u : Time) → t.wall / day_ns ≡ u.wall / day_ns → date t ≡ date u
unfolding date
same_date t u e = ap date_of e

pub same_weekday : (t u : Time) → t.wall / day_ns ≡ u.wall / day_ns → weekday t ≡ weekday u
unfolding weekday
same_weekday t u e = ap (λ d. (d + 1) % 7) e

pub same_day :
    (s : Schedule) (t u : Time) → t.wall / day_ns ≡ u.wall / day_ns → fires_on s t ≡ fires_on s u
unfolding fires_on
same_day s t u e = ground (arith, same_date t u e, same_weekday t u e)

pub fires_on-add_days :
    (s : Schedule) (now : Time) (off : ℕ)
    → fires_on s (add_days now off) ≡ fires_on s (midnight (now.wall / day_ns + off))
unfolding add_days
fires_on-add_days s now off = same_day s _ _ (omega arith)

pub day-add_days :
    (now : Time) (off : ℕ) → (add_days now off).wall / day_ns ≡ now.wall / day_ns + off
unfolding add_days
day-add_days now off = omega arith

pub All-Listed : (n k : ℕ) (ms : List ℕ) → All (λ m. n ≤ m) ms → Listed k ms → n ≤ k
All-Listed n k [] h listed = absurd listed
All-Listed n k (m ∷ ms) h (inl e) = omega (arith, h.0)
All-Listed n k (m ∷ ms) h (inr later) = All-Listed n k ms h.1 later

pub Listed-lt : (k : ℕ) (ms : List ℕ) → IsDayTimes ms → Listed k ms → k < 1440
Listed-lt k [] h listed = absurd listed
Listed-lt k (m ∷ ms) h (inl e) = omega (arith, h.0)
Listed-lt k (m ∷ ms) h (inr later) = Listed-lt k ms h.2 later
