-- ===== src/Scheduler/Tool/Tests.antt =====
-- Calls of the `schedule_task` tool at concrete data.
use miss_raspberry_agent.Prelude.{pos, ℕ, ◌≡◌, refl, Option, none, [], Text, codes}
use miss_raspberry_agent.Scheduler.Calendar.{Time}
use miss_raspberry_agent.Scheduler.Tool.{ScheduleTaskInput, relative_delay}

-- A parser that accepts nothing
abbrev no_datetime : Text → Text → Option Time
no_datetime layout s = none

abbrev no_seconds : ℕ → Text
no_seconds d = []

abbrev midday : Time
midday = record { wall = 63_902_865_600_000_000_000 }

-- "every day at 08:00"
abbrev every_morning : ScheduleTaskInput
every_morning = record {
  action = codes "create";
  content = codes "greet";
  type = codes "daily";
  datetime = [];
  minutes = pos 0;
  hours = pos 0;
  days = pos 0;
  weekday = [];
  time = codes "08:00";
  day_of_month = pos 0;
  date = [];
  task_id = [];
  target_type = codes "private";
  target_id = pos 7;
}

-- Ten minutes, and a count of hours whose delay wraps around to less than half an hour.
ten_minutes : relative_delay 10 0 0 ≡ pos 600_000_000_000
unfolding relative_delay
ten_minutes = refl

many_hours : relative_delay 0 5_124_096 0 ≡ pos 1_526_290_448_384
unfolding relative_delay
many_hours = refl
