-- ===== src/Scheduler/Builder/Describe.antt =====
-- Describe, formatMinute, weekdayAbbr and formatDuration of internal/scheduler/builder.go.
use miss_raspberry_agent.Prelude.{
  ◌==◌, if◌then◌else◌, length, pos_part, ℕ, zero, suc, ◌-◌, ◌*◌, ◌/◌, ◌%◌, ◌<◌, ◌≡◌, refl, Bool,
  true, false, not, ◌&&◌, List, [], ◌∷◌, ◌++◌, arith, format_nat, is_digit, Text, codes, is_space,
  trim_space, ok, err,
}
use miss_raspberry_agent.Scheduler.Calendar.{Time, date, day_ns, minute_ns}
use miss_raspberry_agent.Scheduler.Schedule.{
  once, relative, daily, weekly, monthly, yearly, Schedule,
}
use miss_raspberry_agent.Scheduler.Builder.Parts.{parse_time}

-- `%0wd`: zeros in front up to the width.
unfoldable pub pad : ℕ → Text → Text
pad w s = zeros (w - length s)
  where
    zeros : ℕ → Text
    zeros zero = s
    zeros (suc n) = b'0' ∷ zeros n

unfoldable pub two_digits : ℕ → Text
unfolding pad
two_digits n = pad 2 (format_nat n)

-- formatMinute: "%02d:%02d"
unfoldable pub format_minute : ℕ → Text
unfolding two_digits
format_minute m = two_digits (m / 60) ++ b':' ∷ two_digits (m % 60)

-- weekdayAbbr, with Sunday as 0
unfoldable pub weekday_abbr : ℕ → Text
weekday_abbr d =
    if d == 1
    then codes "Mon"
    else if d == 2
    then codes "Tue"
    else if d == 3
    then codes "Wed"
    else if d == 4
    then codes "Thu"
    else if d == 5
    then codes "Fri"
    else if d == 6
    then codes "Sat"
    else if d == 0
    then codes "Sun"
    else codes "%!Weekday(" ++ format_nat d ++ codes ")"

-- t.Format("2006-01-02 15:04")
unfoldable pub format_time : Time → Text
unfolding two_digits pad
format_time t =
    let d = date t in
    let minute = t.wall % day_ns / minute_ns in
    pad 4 (format_nat d.year)
    ++ b'-'
      ∷ (two_digits d.month
          ++ b'-'
            ∷ (two_digits d.day
                ++ b' ' ∷ (two_digits (minute / 60) ++ b':' ∷ two_digits (minute % 60))))

-- The first element of a slice; builders leave none of the slices that Describe indexes empty, where
-- Go would panic.
unfoldable pub first {ℓ} : {A : Type ℓ} → A → List A → A
first default [] = default
first default (x ∷ xs) = x

-- `seconds` prints a duration by `fmt.Sprintf("%.0f", d.Seconds())`, in floating point.
module _ (seconds : ℕ → Text) where
  -- formatDuration, on the positive durations that NewRelative admits
  unfoldable pub format_duration : ℕ → Text
  format_duration d =
      if not (d % minute_ns == 0)
      then seconds d ++ codes " seconds"
      else if d % day_ns == 0
      then format_nat (d / day_ns) ++ codes " days"
      else if d % (60 * minute_ns) == 0
      then format_nat (d / (60 * minute_ns)) ++ codes " hours"
      else format_nat (d / minute_ns) ++ codes " minutes"

  -- Describe
  unfoldable pub describe : Schedule → Text
  unfolding format_duration format_minute format_time two_digits weekday_abbr first
  describe s = elim s.kind [
    | once ↦ format_time s.at ++ codes " (once)"
    | relative ↦ format_duration (pos_part s.dur) ++ codes " later (once)"
    | daily ↦ codes "every day at " ++ format_minute (first 0 s.times)
    | weekly ↦
        codes "every "
        ++ weekday_abbr (first 0 s.days)
        ++ codes " at "
        ++ format_minute (first 0 s.times)
    | monthly ↦
        codes "every month on day "
        ++ format_nat (first 0 s.days_of_month)
        ++ codes " at "
        ++ format_minute (first 0 s.times)
    | yearly ↦
        let md = first (record { month = 0; day = 0 }) s.dates in
        codes "every year on "
        ++ two_digits md.month
        ++ b'-' ∷ two_digits md.day
        ++ codes " at "
        ++ format_minute (first 0 s.times)
  ]

-- A test on every minute before the `k`th.
every_minute : (ℕ → Bool) → ℕ → Bool
every_minute test zero = true
every_minute test (suc k) = let earlier = every_minute test k in earlier && test k

every_minute_lem : (test : ℕ → Bool) (k m : ℕ) → m < k → every_minute test k ≡ true → test m ≡ true
unfolding every_minute
every_minute_lem test zero m below passed = absurd (omega arith)
every_minute_lem test (suc k) m below passed = ground (arith, every_minute_lem test k m)

abbrev reads_back : ℕ → Bool
reads_back m = elim (parse_time (format_minute m)) [ ok k ↦ k == m | err _ ↦ false ]

reads_back_table : every_minute reads_back 1440 ≡ true
unfolding every_minute parse_time trim_space is_space is_digit format_minute format_nat
reads_back_table = refl

-- Every minute of a day that Describe prints is read back by the parser of times.
pub parse_time-format_minute : (m : ℕ) → m < 1440 → parse_time (format_minute m) ≡ ok m
parse_time-format_minute m h = ground (arith, every_minute_lem reads_back 1440 m h reads_back_table)
