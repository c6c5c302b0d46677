-- ===== src/Scheduler/Builder/Parts.antt =====
-- parseTime, parseWeekday, parseMonthDay and validDate of internal/scheduler/builder.go.
use miss_raspberry_agent.Prelude.{
  leb, ◌==◌, if◌then◌else◌, ℤ, pos, pos_part, ltb_ℤ, ℕ, ◌+◌, ◌*◌, ◌≡◌, refl, Bool, false, not, ◌&&◌,
  ◌||◌, Option, none, some, List, [], ◌∷◌, map, parse_int, Text, codes, text_eq, is_space,
  trim_space, Result, ok, err,
}
use miss_raspberry_agent.Scheduler.Calendar.{day_number, date_of, find_year, find_month}
use miss_raspberry_agent.Scheduler.Schedule.{MonthDay}

pub data ParseError : Type 0 where
  invalid_time invalid_weekday invalid_date : Text → ParseError

-- strings.SplitN(s, sep, 2): the parts before and behind the first separator, if there is one.
unfoldable pub split_at : ℕ → Text → Option (Text × Text)
split_at sep [] = none
split_at sep (c ∷ s) =
    let rest = split_at sep s in
    if c == sep then some ([], s) else elim rest [ none ↦ none | some (a, b) ↦ some (c ∷ a, b) ]

abbrev pub between : ℕ → ℕ → ℤ → Bool
between lo hi z = not (ltb_ℤ z (pos lo)) && not (ltb_ℤ (pos hi) z)

-- The minute of the day that two parsed parts stand for.
unfoldable pub clock_minute : Option ℤ → Option ℤ → Option ℕ
clock_minute (some hh) (some mm) =
    if between 0 23 hh && between 0 59 mm then some (pos_part hh * 60 + pos_part mm) else none
clock_minute _ _ = none

unfoldable pub or_invalid {ℓ} : {A : Type ℓ} → ParseError → Option A → Result ParseError A
or_invalid e none = err e
or_invalid e (some a) = ok a

-- parseTime
unfoldable pub parse_time : Text → Result ParseError ℕ
unfolding or_invalid split_at parse_int clock_minute
parse_time text =
    let t = trim_space text in
    or_invalid (invalid_time t) (elim (split_at b':' t) [
      | none ↦ none
      | some (h, m) ↦ clock_minute (parse_int h) (parse_int m)
    ])

-- unicode.ToLower, as far as it reaches the ASCII letters: the capital dotted I and the Kelvin sign
-- are the only others whose lower case is one. Any other code point stays outside ASCII.
unfoldable pub lower : ℕ → ℕ
lower c =
    if leb b'A' c && leb c b'Z'
    then c + 32
    else if c == 0x130
    then b'i'
    else if c == 0x212a
    then b'k'
    else c

-- strings.ToLower
abbrev pub to_lower : Text → Text
to_lower = map lower

unfoldable pub member : Text → List Text → Bool
member s [] = false
member s (t ∷ ts) = text_eq s t || member s ts

abbrev pub weekday_names : List (ℕ × List Text)
weekday_names =
    (1, codes "mon" ∷ codes "monday" ∷ [])
    ∷ (2, codes "tue" ∷ codes "tues" ∷ codes "tuesday" ∷ [])
    ∷ (3, codes "wed" ∷ codes "wednesday" ∷ [])
    ∷ (4, codes "thu" ∷ codes "thur" ∷ codes "thurs" ∷ codes "thursday" ∷ [])
    ∷ (5, codes "fri" ∷ codes "friday" ∷ [])
    ∷ (6, codes "sat" ∷ codes "saturday" ∷ [])
    ∷ (0, codes "sun" ∷ codes "sunday" ∷ [])
    ∷ []

unfoldable pub find_weekday : Text → List (ℕ × List Text) → Option ℕ
find_weekday s [] = none
find_weekday s ((d, names) ∷ rest) = if member s names then some d else find_weekday s rest

-- parseWeekday, with Sunday as 0
unfoldable pub parse_weekday : Text → Result ParseError ℕ
unfolding or_invalid find_weekday member lower
parse_weekday s =
    or_invalid (invalid_weekday s) (find_weekday (to_lower (trim_space s)) weekday_names)

-- validDate in a given year: time.Date must not have moved the day into another month.
unfoldable pub valid_date : ℕ → ℤ → ℤ → Bool
unfolding day_number date_of find_year find_month
valid_date y m d =
    between 1 12 m
    && between 1 31 d
    && (let back =
          date_of (day_number (record { year = y; month = pos_part m; day = pos_part d })) in
        (back.month == pos_part m) && (back.day == pos_part d))

unfoldable pub month_day : Option ℤ → Option ℤ → Option MonthDay
unfolding valid_date
month_day (some mo) (some d) =
    if valid_date 2000 mo d then some (record { month = pos_part mo; day = pos_part d }) else none
month_day _ _ = none

-- parseMonthDay
unfoldable pub parse_month_day : Text → Result ParseError MonthDay
unfolding or_invalid split_at parse_int
parse_month_day text =
    let s = trim_space text in
    or_invalid (invalid_date s) (elim (split_at b'-' s) [
      | none ↦ none
      | some (mo, d) ↦ month_day (parse_int mo) (parse_int d)
    ])

parse_time_noon : parse_time (codes " 12:05 ") ≡ ok 725
unfolding parse_time trim_space is_space
parse_time_noon = refl

parse_weekday_thurs : parse_weekday (codes "Thurs") ≡ ok 4
unfolding parse_weekday trim_space is_space text_eq
parse_weekday_thurs = refl

parse_month_day_leap : parse_month_day (codes "02-29") ≡ ok (record { month = 2; day = 29 })
unfolding parse_month_day month_day trim_space is_space
parse_month_day_leap = refl
