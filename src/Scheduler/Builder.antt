-- ===== src/Scheduler/Builder.antt =====
-- internal/scheduler/builder.go: the constructors of schedules and the parsers behind them.
pub mod Parts
pub mod Describe
pub mod Built
mod Tests
use miss_raspberry_agent.Prelude.{
  if◌then◌else◌, ℤ, pos, pos_part, ltb_ℤ, leb_ℤ, ◌||◌, Option, none, some, List, [], ◌∷◌, Text,
  codes, trim_space, Result, ok, err, ◌>>=◌,
}
use miss_raspberry_agent.Scheduler.Calendar.{Time}
use miss_raspberry_agent.Scheduler.Schedule.{
  Kind, once, relative, daily, weekly, monthly, yearly, MonthDay, Schedule,
}
use Parts.{ParseError, parse_time, parse_weekday, parse_month_day}

pub data Error : Type 0 where
  delay_not_positive : Error
  in_daily in_weekly in_monthly in_yearly : ParseError → Error
  invalid_day : ℤ → Error
  invalid_datetime : Text → Error

-- A Schedule with all other fields zero.
abbrev pub blank : Kind → Schedule
blank kind = record {
  kind = kind;
  at = record { wall = 0 };
  dur = pos 0;
  days = [];
  days_of_month = [];
  dates = [];
  times = [];
}

-- `fmt.Errorf("...: %w", err)`
abbrev pub wrap {ℓ} : {A : Type ℓ} → (ParseError → Error) → Result ParseError A → Result Error A
wrap f (ok a) = ok a
wrap f (err e) = err (f e)

unfoldable pub new_once : Time → Result Error Schedule
new_once at = ok (record (blank once) { at = at })

unfoldable pub new_relative : ℤ → Result Error Schedule
new_relative delay =
    if leb_ℤ delay (pos 0)
    then err delay_not_positive
    else ok (record (blank relative) { dur = delay })

unfoldable pub new_daily : Text → Result Error Schedule
new_daily t = do m ← wrap in_daily (parse_time t); ok (record (blank daily) { times = m ∷ [] })

unfoldable pub new_weekly : Text → Text → Result Error Schedule
new_weekly weekday t = do
  d ← wrap in_weekly (parse_weekday weekday)
  m ← wrap in_weekly (parse_time t)
  ok (record (blank weekly) { days = d ∷ []; times = m ∷ [] })

unfoldable pub new_monthly : ℤ → Text → Result Error Schedule
new_monthly day t = if ltb_ℤ day (pos 1) || ltb_ℤ (pos 31) day then err (invalid_day day) else do
  m ← wrap in_monthly (parse_time t)
  ok (record (blank monthly) { days_of_month = pos_part day ∷ []; times = m ∷ [] })

unfoldable pub new_yearly : Text → Text → Result Error Schedule
new_yearly date t = do
  md ← wrap in_yearly (parse_month_day date)
  m ← wrap in_yearly (parse_time t)
  ok (record (blank yearly) { dates = md ∷ []; times = m ∷ [] })

-- The layouts of ParseDateTime
abbrev pub datetime_layouts : List Text
datetime_layouts =
    codes "2006-01-02 15:04"
    ∷ codes "2006-01-02 15:04:05"
    ∷ codes "2006/01/02 15:04"
    ∷ codes "2006-01-02"
    ∷ []

-- `parse_in_location` is time.ParseInLocation in Beijing, for a layout and a text.
module _ (parse_in_location : Text → Text → Option Time) where
  -- The loop of ParseDateTime
  unfoldable pub parse_layouts : List Text → Text → Option Time
  parse_layouts [] s = none
  parse_layouts (layout ∷ layouts) s =
      let rest = parse_layouts layouts s in
      elim (parse_in_location layout s) [ some t ↦ some t | none ↦ rest ]

  -- ParseDateTime
  unfoldable pub parse_date_time : Text → Result Error Time
  unfolding parse_layouts
  parse_date_time s = elim (parse_layouts datetime_layouts (trim_space s)) [
    | some t ↦ ok t
    | none ↦ err (invalid_datetime (trim_space s))
  ]
