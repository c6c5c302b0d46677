-- ===== src/Scheduler/Schedule.antt =====
-- internal/scheduler/schedule.go: schedules and their next firing.
pub mod Firing
pub mod Search
pub mod Window
use miss_raspberry_agent.Prelude.{
  ◌==◌, if◌then◌else◌, ℤ, ℕ, zero, suc, ◌+◌, ◌/◌, ◌%◌, Bool, true, false, ◌&&◌, ◌||◌, Option, none,
  some, List, [], ◌∷◌,
}
use miss_raspberry_agent.Scheduler.Calendar.{
  Time, Date, date, weekday, time_at, add_days, add_duration, before,
}

pub data Kind : Type 0 where
  once relative daily weekly monthly yearly : Kind

pub record MonthDay : Type 0 where
  pub month : ℕ
  pub day : ℕ

-- Weekdays count from Sunday as 0, and times are minutes of the day.
pub record Schedule : Type 0 where
  pub kind : Kind
  pub at : Time
  pub dur : ℤ
  pub days : List ℕ
  pub days_of_month : List ℕ
  pub dates : List MonthDay
  pub times : List ℕ

-- Repeat
unfoldable pub repeats : Schedule → Bool
repeats s = elim s.kind [ once ↦ false | relative ↦ false | _ ↦ true ]

unfoldable pub contains_weekday : List ℕ → ℕ → Bool
contains_weekday [] d = false
contains_weekday (v ∷ days) d = (v == d) || contains_weekday days d

unfoldable pub contains_int : List ℕ → ℕ → Bool
contains_int [] v = false
contains_int (x ∷ xs) v = (x == v) || contains_int xs v

unfoldable pub contains_month_day : List MonthDay → ℕ → ℕ → Bool
contains_month_day [] month day = false
contains_month_day (d ∷ dates) month day =
    ((d.month == month) && (d.day == day)) || contains_month_day dates month day

-- nextAtDay
unfoldable pub next_at_day : Time → List ℕ → Time → Option Time
next_at_day day [] now = none
next_at_day day (m ∷ times) now =
    let t = time_at (date day) (m / 60) (m % 60) in
    let rest = next_at_day day times now in if before now t then some t else rest

-- The days that a repeating schedule fires on: the test at the head of each loop of Next.
unfoldable pub fires_on : Schedule → Time → Bool
fires_on s day = elim s.kind [
  | once ↦ false
  | relative ↦ false
  | daily ↦ true
  | weekly ↦ contains_weekday s.days (weekday day)
  | monthly ↦ contains_int s.days_of_month (date day).day
  | yearly ↦ contains_month_day s.dates (date day).month (date day).day
]

-- The loop of Next over the offsets from `off` on, with `left` of them to go.
unfoldable pub scan_days : ℕ → ℕ → Schedule → Time → Option Time
scan_days zero off s now = none
scan_days (suc left) off s now =
    let later = scan_days left (off + 1) s now in
    let day = add_days now off in
    if fires_on s day
    then elim (next_at_day day s.times now) [ some t ↦ some t | none ↦ later ]
    else later

-- The bounds of the loops.
unfoldable pub search_days : Kind → ℕ
search_days once = 0
search_days relative = 0
search_days daily = 8
search_days weekly = 8
search_days monthly = 370
search_days yearly = 1500

-- Next
unfoldable pub next : Schedule → Time → Option Time
next s now = elim s.kind [
  | once ↦ if before now s.at then some s.at else none
  | relative ↦ some (add_duration now s.dur)
  | other ↦ scan_days (search_days other) 0 s now
]
