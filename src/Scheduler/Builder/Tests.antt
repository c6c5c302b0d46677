-- ===== src/Scheduler/Builder/Tests.antt =====
-- Schedules at concrete data.
use miss_raspberry_agent.Prelude.{
  ◌+◌, ◌*◌, ◌/◌, ◌≤◌, ◌≡◌, refl, true, none, [], ◌∷◌, arith, is_digit, parse_magnitude, parse_int,
  codes, text_eq, is_space, trim_space, ok,
}
use miss_raspberry_agent.Scheduler.Calendar.{Time, day_ns, days_before_year}
use miss_raspberry_agent.Scheduler.Schedule.{Schedule, yearly, weekly, next, repeats}
use miss_raspberry_agent.Scheduler.Schedule.Window.{next_leap_day_missed, leap_day_only}
use miss_raspberry_agent.Scheduler.Builder.{blank, new_daily, new_weekly}
use miss_raspberry_agent.Scheduler.Builder.Parts.{
  clock_minute, or_invalid, split_at, find_weekday, to_lower, lower, member, parse_time,
  parse_weekday,
}
use miss_raspberry_agent.Scheduler.Builder.Describe.{format_minute, parse_time-format_minute}
use miss_raspberry_agent.Scheduler.Tests.{breakfast}

breakfast_built : new_daily (codes " 08:00") ≡ ok breakfast
unfolding new_daily parse_time trim_space is_space is_digit clock_minute parse_int parse_magnitude
    or_invalid split_at
breakfast_built = refl

-- Monday at 08:00
abbrev monday : Schedule
monday = record (blank weekly) { days = 1 ∷ []; times = 480 ∷ [] }

monday_built : new_weekly (codes "Monday") (codes "08:00") ≡ ok monday
unfolding new_weekly parse_time parse_weekday find_weekday to_lower lower member trim_space is_space
    is_digit text_eq
monday_built = refl

parse_time-format_minute_example : parse_time (format_minute 485) ≡ ok 485
parse_time-format_minute_example = parse_time-format_minute 485 (omega arith)

-- 29 February at 08:00
abbrev leap_day : Schedule
leap_day = record (blank yearly) { dates = leap_day_only ∷ []; times = 480 ∷ [] }

abbrev spring_2096 : Time
spring_2096 = record { wall = 765547 * day_ns }

spring_from : days_before_year 2096 + 60 ≤ spring_2096.wall / day_ns
unfolding days_before_year
spring_from = omega arith

spring_until : spring_2096.wall / day_ns + 1500 ≤ days_before_year 2104 + 59
unfolding days_before_year
spring_until = omega arith

next_leap_day_missed_example : (next leap_day spring_2096 ≡ none) × (repeats leap_day ≡ true)
next_leap_day_missed_example =
    next_leap_day_missed leap_day spring_2096 refl refl spring_from spring_until
