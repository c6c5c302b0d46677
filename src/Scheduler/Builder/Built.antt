-- ===== src/Scheduler/Builder/Built.antt =====
-- What the constructors of schedules promise.
use miss_raspberry_agent.Prelude.{
  ℤ, ℕ, ◌<◌, ◌≡◌, refl, Option, none, some, [], ◌∷◌, arith, parse_int, Text, trim_space, Result, ok,
  err, ◌>>=◌,
}
use miss_raspberry_agent.Scheduler.Calendar.{Time}
use miss_raspberry_agent.Scheduler.Schedule.{daily, weekly, Schedule, next}
use miss_raspberry_agent.Scheduler.Schedule.Window.{daily_found, weekly_found}
use miss_raspberry_agent.Scheduler.Builder.{wrap, in_daily, in_weekly, new_daily, new_weekly, blank}
use miss_raspberry_agent.Scheduler.Builder.Parts.{
  ParseError, parse_time, parse_weekday, clock_minute, or_invalid, find_weekday, weekday_names,
  split_at,
}

clock_minute-lt : (h m : Option ℤ) (n : ℕ) → clock_minute h m ≡ some n → n < 1440
unfolding clock_minute
clock_minute-lt (some hh) (some mm) n e = ground arith
clock_minute-lt (some hh) none n e = cc
clock_minute-lt none m n e = cc

or_invalid-eq_ok {ℓ} :
    {A : Type ℓ} (e : ParseError) (o : Option A) (a : A) → or_invalid e o ≡ ok a → o ≡ some a
unfolding or_invalid
or_invalid-eq_ok e none a h = cc
or_invalid-eq_ok e (some b) a h = cc

parse_parts-lt :
    (p : Option (Text × Text)) (n : ℕ)
    → elim p [ none ↦ none | some (h, m) ↦ clock_minute (parse_int h) (parse_int m) ] ≡ some n
    → n < 1440
parse_parts-lt none n h = cc
parse_parts-lt (some (a, b)) n h = clock_minute-lt (parse_int a) (parse_int b) n h

-- An accepted time is a minute of the day.
pub parse_time-lt : (t : Text) (m : ℕ) → parse_time t ≡ ok m → m < 1440
unfolding parse_time
parse_time-lt t m h = parse_parts-lt (split_at b':' (trim_space t)) m (or_invalid-eq_ok _ _ m h)

find_weekday-lt : (s : Text) (d : ℕ) → find_weekday s weekday_names ≡ some d → d < 7
unfolding find_weekday
find_weekday-lt s d h = ground arith

parse_weekday-lt : (s : Text) (d : ℕ) → parse_weekday s ≡ ok d → d < 7
unfolding parse_weekday
parse_weekday-lt s d h = find_weekday-lt _ d (or_invalid-eq_ok _ _ d h)

daily_of :
    (time : Result ParseError ℕ) (s : Schedule)
    → (wrap in_daily time >>= λ m. ok (record (blank daily) { times = m ∷ [] })) ≡ ok s
    → (m : ℕ) × (time ≡ ok m) × (s ≡ record (blank daily) { times = m ∷ [] })
daily_of (ok m) s h = (m, refl, cc)
daily_of (err e) s h = cc

weekly_of :
    (day time : Result ParseError ℕ) (s : Schedule)
    → (wrap in_weekly day >>= λ d.
        wrap in_weekly time >>= λ m. ok (record (blank weekly) { days = d ∷ []; times = m ∷ [] }))
      ≡ ok s
    → (d m : ℕ) × (day ≡ ok d)
      × (time ≡ ok m)
      × (s ≡ record (blank weekly) { days = d ∷ []; times = m ∷ [] })
weekly_of (ok d) (ok m) s h = (d, m, refl, refl, cc)
weekly_of (ok d) (err e) s h = cc
weekly_of (err e) time s h = cc

-- The accepted parts of a weekly schedule.
weekly_parts :
    (w t : Text) (s : Schedule)
    → new_weekly w t ≡ ok s
    → (d m : ℕ) × (parse_weekday w ≡ ok d)
      × (parse_time t ≡ ok m)
      × (s ≡ record (blank weekly) { days = d ∷ []; times = m ∷ [] })
unfolding new_weekly
weekly_parts w t s h = weekly_of (parse_weekday w) (parse_time t) s h

daily_parts :
    (t : Text) (s : Schedule)
    → new_daily t ≡ ok s
    → (m : ℕ) × (parse_time t ≡ ok m) × (s ≡ record (blank daily) { times = m ∷ [] })
unfolding new_daily
daily_parts t s h = daily_of (parse_time t) s h

-- A schedule that NewDaily builds has a next firing at every time.
new_daily_fires :
    (t : Text) (s : Schedule) (now : Time) → new_daily t ≡ ok s → (u : Time) × (next s now ≡ some u)
new_daily_fires t s now h =
    let (m, parsed, built) = daily_parts t s h in
    daily_found s now m [] (rw built) (parse_time-lt t m parsed, tt, tt) (rw built)

-- A schedule that NewWeekly builds has a next firing at every time.
new_weekly_fires :
    (w t : Text) (s : Schedule) (now : Time)
    → new_weekly w t ≡ ok s
    → (u : Time) × (next s now ≡ some u)
new_weekly_fires w t s now h =
    let (d, m, day, parsed, built) = weekly_parts w t s h in
    weekly_found s now m [] (rw built) (parse_time-lt t m parsed, tt, tt) d [] (rw built) (rw built)
      (parse_weekday-lt w d day)
