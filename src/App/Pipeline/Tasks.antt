-- ===== src/App/Pipeline/Tasks.antt =====
-- What the actions do to the task store.
use miss_raspberry_agent.Prelude.{
  ltb, Bool-cases, length, ℤ, max_int64, ℕ, ◌<◌, ◌≡◌, refl, sym, subst, inl, inr, Option, none,
  some, List, [], ◌∷◌, Text,
}
use miss_raspberry_agent.Scheduler.Calendar.{Time}
use miss_raspberry_agent.Scheduler.Schedule.{Schedule}
use miss_raspberry_agent.Scheduler.Schedule.Firing.{IsDayTimes}
use miss_raspberry_agent.Scheduler.Store.{Task, Source, Store, add_at, cancel, fire}
use miss_raspberry_agent.Scheduler.Store.Dispatch.Reachable.{
  IsSound, fire-IsSound, add_at-IsSound, cancel-IsSound,
}
use miss_raspberry_agent.Scheduler.Store.Dispatch.Ticks.{events}
use miss_raspberry_agent.App.Pipeline.{
  Phase, waiting, looping, sending, ended, Pipeline, Action, ticks, turns, sends, gives_up,
  forwards, schedules, cancels, adds, completes, Outcome, fires_capacity, tick_at, turned, turn_at,
  send_at, give_up_at, forward_from, act,
}
use miss_raspberry_agent.App.Pipeline.Runs.{Ensures}

-- The times of a schedule are minutes of a day in order.
abbrev pub Scheduled : Action → Type 0
Scheduled (schedules content sch src now) = IsDayTimes sch.times
Scheduled _ = Unit

-- The four things that happen to the store.
pub data TaskStep (seconds : ℕ → Text) (s s' : Store) (fired : List Task) : Type 0 where
  keeps : s' ≡ s → fired ≡ [] → TaskStep seconds s s' fired
  takes :
      (now : Time) (t : Task)
      → s' ≡ (fire now t s).0
      → fired ≡ events (fire now t s).1
      → TaskStep seconds s s' fired
  gains :
      (content : Text) (sch : Schedule) (src : Source) (now : Time)
      → IsDayTimes sch.times
      → s' ≡ (add_at seconds content (some sch) src now s).0
      → fired ≡ []
      → TaskStep seconds s s' fired
  loses : (id : Text) → s' ≡ (cancel id s).0 → fired ≡ [] → TaskStep seconds s s' fired

module _ (seconds : ℕ → Text) where
  abbrev pub StepOf : Pipeline → Outcome → Type 0
  StepOf p o = TaskStep seconds p.tasks o.pipeline.tasks o.fired

  tick-StepOf : (ph : Phase) (now : Time) (p : Pipeline) → Ensures (StepOf p) (tick_at ph now p)
  unfolding tick_at
  tick-StepOf waiting now p = keeps refl refl
  tick-StepOf (looping moment ts) now p = tt
  tick-StepOf (sending moment event ts) now p = tt
  tick-StepOf (ended lost) now p = tt

  turned-tasks :
      (now : Time) (ts : List Task) (s : Store) (event : Option Task) (p : Pipeline)
      → ((turned now ts s event p).pipeline.tasks ≡ s)
        × ((turned now ts s event p).fired ≡ events event)
  unfolding turned
  turned-tasks now ts s none p = (refl, refl)
  turned-tasks now ts s (some event) p = (refl, refl)

  turn-StepOf : (ph : Phase) (p : Pipeline) → Ensures (StepOf p) (turn_at ph p)
  unfolding turn_at
  turn-StepOf waiting p = tt
  turn-StepOf (looping now []) p = keeps refl refl
  turn-StepOf (looping now (t ∷ ts)) p =
      let (tasks, fired) = turned-tasks now ts (fire now t p.tasks).0 (fire now t p.tasks).1 p in
      takes now t tasks fired
  turn-StepOf (sending now event ts) p = tt
  turn-StepOf (ended lost) p = tt

  send-StepOf : (ph : Phase) (p : Pipeline) → Ensures (StepOf p) (send_at ph p)
  unfolding send_at
  send-StepOf waiting p = tt
  send-StepOf (looping now ts) p = tt
  send-StepOf (ended lost) p = tt
  send-StepOf (sending now event ts) p = elim (Bool-cases (ltb (length p.fires) fires_capacity)) [
    | inr full ↦ rw full tt
    | inl free ↦ rw free (keeps refl refl)
  ]

  give_up-StepOf : (ph : Phase) (p : Pipeline) → Ensures (StepOf p) (give_up_at ph p)
  unfolding give_up_at
  give_up-StepOf waiting p = keeps refl refl
  give_up-StepOf (looping now ts) p = tt
  give_up-StepOf (sending now event ts) p = keeps refl refl
  give_up-StepOf (ended lost) p = tt

  forward-StepOf :
      (fires : List Task) (now : ℤ) (p : Pipeline) → Ensures (StepOf p) (forward_from fires now p)
  unfolding forward_from
  forward-StepOf [] now p = tt
  forward-StepOf (task ∷ fires) now p = keeps refl refl

  pub act-StepOf : (a : Action) (p : Pipeline) → Scheduled a → Ensures (StepOf p) (act seconds a p)
  unfolding act
  act-StepOf (ticks now) p h = tick-StepOf p.phase now p
  act-StepOf turns p h = turn-StepOf p.phase p
  act-StepOf sends p h = send-StepOf p.phase p
  act-StepOf gives_up p h = give_up-StepOf p.phase p
  act-StepOf (forwards now) p h = forward-StepOf p.fires now p
  act-StepOf (schedules content sch src now) p h = gains content sch src now h refl refl
  act-StepOf (cancels id) p h = loses id refl refl
  act-StepOf (adds now item) p h = keeps refl refl
  act-StepOf (completes id) p h = keeps refl refl

  pub TaskStep-IsSound :
      (s s' : Store) (fired : List Task)
      → TaskStep seconds s s' fired
      → IsSound s
      → s.next_id < max_int64
      → IsSound s'
  TaskStep-IsSound s s' fired (keeps same _) v room = subst IsSound (sym same) v
  TaskStep-IsSound s s' fired (takes now t same _) v room =
      subst IsSound (sym same) (fire-IsSound now t s v)
  TaskStep-IsSound s s' fired (gains content sch src now times same _) v room =
      subst IsSound (sym same) (add_at-IsSound seconds content sch src now s times room v)
  TaskStep-IsSound s s' fired (loses id same _) v room =
      subst IsSound (sym same) (cancel-IsSound id s v)
