-- ===== src/Clock/Reading.antt =====
-- Times from their Unix seconds, and what a printed clock says.
use miss_raspberry_agent.Prelude.{ℕ, ◌/◌, ◌%◌, ◌≤◌, ◌≡◌, refl, ap, ◌∷◌, ◌++◌, arith, ok}
use miss_raspberry_agent.Scheduler.Calendar.{Time, unix, second_ns}
use miss_raspberry_agent.Scheduler.Builder.Describe.{
  two_digits, format_minute, parse_time-format_minute,
}
use miss_raspberry_agent.Scheduler.Builder.Parts.{parse_time}
use miss_raspberry_agent.Clock.{from_unix, second_of_day, format_clock}

wall_seconds :
    (t : Time)
    → t.wall % second_ns ≡ 0
    → 62_135_625_600 ≤ t.wall / second_ns
    → (from_unix (unix t)).wall ≡ t.wall
unfolding from_unix unix
wall_seconds t whole late = ground arith

-- A time of whole seconds after 1970 is found again from its Unix time.
pub from_unix-unix :
    (t : Time)
    → t.wall % second_ns ≡ 0
    → 62_135_625_600 ≤ t.wall / second_ns
    → from_unix (unix t) ≡ t
from_unix-unix t whole late = ap (λ n. record { wall = n }) (wall_seconds t whole late)

-- The clock's text starts with the minute of the day as the scheduler prints it, and as its constructors
-- read it, and goes on with the second.
clock-minute :
    (t : Time)
    → (minute : ℕ) × (minute ≡ second_of_day t / 60)
      × (format_clock t ≡ format_minute minute ++ b':' ∷ two_digits (second_of_day t % 60))
      × (parse_time (format_minute minute) ≡ ok minute)
unfolding format_clock format_minute
clock-minute t =
    let minute = second_of_day t / 60 in
    let hours : second_of_day t / 3600 ≡ minute / 60 = omega arith in
    (minute, refl, rw hours refl, parse_time-format_minute minute (omega arith))
