-- ===== src/Scheduler/Schedule/Search.antt =====
-- Next against a description of the firings: it returns the earliest firing after `now`.
use miss_raspberry_agent.Prelude.{
  ltb→lt, Bool-cases, Option-cases, ℕ, zero, suc, ◌+◌, ◌*◌, ◌/◌, ◌%◌, ◌≤◌, ◌<◌, ◌≡◌, refl, subst,
  ◌≢◌, inl, inr, true, Option, none, some, List, [], ◌∷◌, arith,
}
use native.Mathlib.Decide.{ℕ_discrete}
use miss_raspberry_agent.Scheduler.Calendar.{
  Time, date, time_at, add_days, before, day_ns, minute_ns,
}
use miss_raspberry_agent.Scheduler.Calendar.Days.{time_at-date}
use miss_raspberry_agent.Scheduler.Schedule.{
  Schedule, repeats, next_at_day, fires_on, scan_days, search_days, next,
}
use miss_raspberry_agent.Scheduler.Schedule.Firing.{
  midnight, Listed, IsFiring, IsDayTimes, fires_on-add_days, day-add_days, All-Listed, Listed-lt,
}

module _ (now : Time) where
  -- What one day's search finds: the first minute after `now`.
  abbrev DaySpec : ℕ → List ℕ → Option Time → Type 0
  DaySpec d times (some t) =
      (m : ℕ) × Listed m times
      × (t.wall ≡ d * day_ns + m * minute_ns)
      × (now.wall < t.wall)
      × ((k : ℕ) → Listed k times → now.wall < d * day_ns + k * minute_ns → m ≤ k)
  DaySpec d times none = (k : ℕ) → Listed k times → d * day_ns + k * minute_ns ≤ now.wall

  DaySpec-skip :
      (d m : ℕ) (times : List ℕ) (r : Option Time)
      → d * day_ns + m * minute_ns ≤ now.wall
      → DaySpec d times r
      → DaySpec d (m ∷ times) r
  DaySpec-skip d m times none past spec = all_past
    where
      all_past : (j : ℕ) → Listed j (m ∷ times) → d * day_ns + j * minute_ns ≤ now.wall
      all_past j (inl e) = omega arith
      all_past j (inr later) = spec j later
  DaySpec-skip d m times (some t) past (k, listed, moment, after, least) =
      (k, inr listed, moment, after, least')
    where
      least' : (j : ℕ) → Listed j (m ∷ times) → now.wall < d * day_ns + j * minute_ns → k ≤ j
      least' j (inl e) h = absurd (omega arith)
      least' j (inr later) h = least j later h

  next_at_day_lem :
      (day : Time) (times : List ℕ)
      → IsDayTimes times
      → DaySpec (day.wall / day_ns) times (next_at_day day times now)
  unfolding next_at_day
  next_at_day_lem day [] h = λ k listed. absurd listed
  next_at_day_lem day (m ∷ times) h =
      let t = time_at (date day) (m / 60) (m % 60) in
      elim (Bool-cases (before now t)) [
        | inl after ↦
            rw (after, next_at_day)
              (
                m,
                inl refl,
                time_at-date day m,
                ltb→lt _ _ after,
                λ k listed _. All-Listed m k (m ∷ times) (omega arith, h.1) listed,
              )
        | inr past ↦
            rw (past, next_at_day)
              (DaySpec-skip _ m times _ (ground (arith, time_at-date day m))
                (next_at_day_lem day times h.2))
      ]

  -- The search over days, from `off` on: nothing before the day found, and nothing earlier on it.
  abbrev ScanSpec : ℕ → ℕ → Schedule → Option Time → Type 0
  ScanSpec off left s (some t) =
      IsFiring s t
      × (now.wall < t.wall)
      × ((u : Time)
          → (f : IsFiring s u) → now.wall < u.wall
          → now.wall / day_ns + off ≤ f.day
          → t.wall ≤ u.wall)
  ScanSpec off left s none =
      (u : Time)
      → (f : IsFiring s u) → now.wall < u.wall
      → now.wall / day_ns + off ≤ f.day
      → now.wall / day_ns + off + left ≤ f.day

  -- A day with no firing after `now` may be passed over.
  ScanSpec-skip :
      (off left : ℕ) (s : Schedule) (r : Option Time)
      → ((u : Time) → (f : IsFiring s u) → now.wall < u.wall → f.day ≢ now.wall / day_ns + off)
      → ScanSpec (off + 1) left s r
      → ScanSpec off (suc left) s r
  ScanSpec-skip off left s none idle spec = λ u f after from.
      let beyond : now.wall / day_ns + (off + 1) ≤ f.day = omega (arith, idle u f after) in
      omega (arith, spec u f after beyond)
  ScanSpec-skip off left s (some t) idle (firing, after, least) =
      (firing, after, λ u f later from. least u f later (omega (arith, idle u f later)))

  -- What one day's search finds is the first firing of the days from there on.
  ScanSpec-found :
      (off left : ℕ) (s : Schedule) (t : Time)
      → IsDayTimes s.times
      → fires_on s (midnight (now.wall / day_ns + off)) ≡ true
      → DaySpec (now.wall / day_ns + off) s.times (some t)
      → ScanSpec off (suc left) s (some t)
  ScanSpec-found off left s t h fires (m, listed, moment, after, least) = (
    record {
      day = now.wall / day_ns + off;
      minute = m;
      on_day = fires;
      listed = listed;
      moment = moment;
    },
    after,
    λ u f later from. earliest u f later from (ℕ_discrete f.day (now.wall / day_ns + off)),
  )
    where
      earliest :
          (u : Time) (f : IsFiring s u)
          → now.wall < u.wall
          → now.wall / day_ns + off ≤ f.day
          → Dec (f.day ≡ now.wall / day_ns + off)
          → t.wall ≤ u.wall
      earliest u f later from (yes same) =
          let moment' : u.wall ≡ (now.wall / day_ns + off) * day_ns + f.minute * minute_ns =
            rw same at f.moment in
          omega (arith, least f.minute f.listed (omega arith))
      earliest u f later from (no other) = omega (arith, f.moment, Listed-lt m s.times h listed)

  day_spec :
      (off : ℕ) (s : Schedule) (r : Option Time)
      → IsDayTimes s.times
      → next_at_day (add_days now off) s.times now ≡ r
      → DaySpec (now.wall / day_ns + off) s.times r
  day_spec off s r h found =
      let spec = next_at_day_lem (add_days now off) s.times h in
      subst (λ d. DaySpec d s.times r) (day-add_days now off)
        (subst (DaySpec ((add_days now off).wall / day_ns) s.times) found spec)

  scan_days_lem :
      (left off : ℕ) (s : Schedule)
      → IsDayTimes s.times
      → ScanSpec off left s (scan_days left off s now)
  unfolding scan_days
  scan_days_lem zero off s h = λ u f after from. omega arith
  scan_days_lem (suc left) off s h =
      let d = now.wall / day_ns + off in
      let rest = scan_days_lem left (off + 1) s h in
      elim (Bool-cases (fires_on s (add_days now off))) [
        | inl fires ↦ elim (Option-cases (next_at_day (add_days now off) s.times now)) [
          | inl missed ↦
              rw (fires, missed, scan_days)
                (ScanSpec-skip off left s _
                  (λ u f after same.
                    let past = day_spec off s none h missed f.minute f.listed in
                    let moment : u.wall ≡ d * day_ns + f.minute * minute_ns = rw same at f.moment in
                    omega arith)
                  rest)
          | inr (t, found) ↦
              rw (fires, found, scan_days)
                (ScanSpec-found off left s t h (rw (fires_on-add_days s now off) at fires)
                  (day_spec off s (some t) h found))
        ]
        | inr rests ↦
            rw (rests, scan_days)
              (ScanSpec-skip off left s _
                (λ u f after same.
                  let fires : fires_on s (midnight d) ≡ true = rw same at f.on_day in
                  cc (fires_on-add_days s now off))
                rest)
      ]

-- What Next promises of its answer.
abbrev pub NextSpec : Schedule → Time → Option Time → Type 0
NextSpec s now (some t) =
    IsFiring s t
    × (now.wall < t.wall)
    × ((u : Time) → IsFiring s u → now.wall < u.wall → t.wall ≤ u.wall)
NextSpec s now none =
    (u : Time)
    → (f : IsFiring s u) → now.wall < u.wall
    → now.wall / day_ns + search_days s.kind ≤ f.day

day_of_later :
    (s : Schedule) (now u : Time) (f : IsFiring s u)
    → IsDayTimes s.times
    → now.wall < u.wall
    → now.wall / day_ns + 0 ≤ f.day
day_of_later s now u f h after = omega (arith, f.moment, Listed-lt f.minute s.times h f.listed)

NextSpec-of_ScanSpec :
    (s : Schedule) (now : Time) (r : Option Time)
    → IsDayTimes s.times
    → ScanSpec now 0 (search_days s.kind) s r
    → NextSpec s now r
NextSpec-of_ScanSpec s now none h spec =
    λ u f after. omega (arith, spec u f after (day_of_later s now u f h after))
NextSpec-of_ScanSpec s now (some t) h (firing, after, least) =
    (firing, after, λ u f later. least u f later (day_of_later s now u f h later))

pub next-scan :
    (s : Schedule) (now : Time)
    → repeats s ≡ true
    → next s now ≡ scan_days (search_days s.kind) 0 s now
unfolding next repeats
next-scan s now h = ground arith

pub next_lem :
    (s : Schedule) (now : Time)
    → repeats s ≡ true
    → IsDayTimes s.times
    → NextSpec s now (next s now)
next_lem s now repeating h =
    NextSpec-of_ScanSpec s now (next s now) h
      (rw (next-scan s now repeating) (scan_days_lem now (search_days s.kind) 0 s h))

module _ (s : Schedule) (now : Time) (repeating : repeats s ≡ true) (h : IsDayTimes s.times) where
  -- For a daily, weekly, monthly or yearly schedule whose times are minutes of a day in ascending
  -- order, the time that Next returns is a firing of the schedule, and lies after `now`.
  pub next_sound : (t : Time) → next s now ≡ some t → IsFiring s t × (now.wall < t.wall)
  next_sound t found =
      let spec = subst (NextSpec s now) found (next_lem s now repeating h) in (spec.0, spec.1)

  complete_of :
      (u : Time) (f : IsFiring s u) (r : Option Time)
      → now.wall < u.wall
      → f.day < now.wall / day_ns + search_days s.kind
      → NextSpec s now r
      → (t : Time) × (r ≡ some t) × (t.wall ≤ u.wall)
  complete_of u f none after near spec = absurd (omega (arith, spec u f after))
  complete_of u f (some t) after near spec = (t, refl, spec.2 u f after)

  -- For a daily, weekly, monthly or yearly schedule whose times are minutes of a day in ascending
  -- order: if it has a firing `u` after `now`, on one of the days that the loop of Next looks at from
  -- the day of `now` on, then Next returns a time, and one that is not later than `u`.
  pub next_complete :
      (u : Time) (f : IsFiring s u)
      → now.wall < u.wall
      → f.day < now.wall / day_ns + search_days s.kind
      → (t : Time) × (next s now ≡ some t) × (t.wall ≤ u.wall)
  next_complete u f after near =
      complete_of u f (next s now) after near (next_lem s now repeating h)
