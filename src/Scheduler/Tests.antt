-- ===== src/Scheduler/Tests.antt =====
-- Runs of the scheduler at concrete data.
use miss_raspberry_agent.Prelude.{
  length, pos, ℕ_eq, ℤ_eq, ℕ, ◌+◌, ◌*◌, ◌/◌, ◌≤◌, ◌<◌, ◌≡◌, refl, sym, ◌∙◌, subst, ◌↔◌, inl, true,
  false, some, [], ◌∷◌, arith, format_int, Text, codes, text_eq, text_eq_inst,
}
use mathlib.Core.List.{Mem}
use miss_raspberry_agent.Prelude.Table
use miss_raspberry_agent.Prelude.Sorting.{sort_by, insert_by, IsSorted}
use miss_raspberry_agent.Prelude.Ids.{numbered}
use miss_raspberry_agent.Scheduler.Calendar.{
  time_at, day_number, days_before_month, days_in_month, is_leap, date, date_of, find_year,
  find_month, days_in_year, add_days, Time, day_ns, minute_ns, unix, days_before_year,
}
use miss_raspberry_agent.Scheduler.Schedule.{
  scan_days, fires_on, next_at_day, Schedule, once, daily, next, repeats, search_days,
}
use miss_raspberry_agent.Scheduler.Schedule.Firing.{IsFiring, IsDayTimes, midnight}
use miss_raspberry_agent.Scheduler.Schedule.Search.{next_sound, next_complete}
use miss_raspberry_agent.Scheduler.Builder.{blank}
use miss_raspberry_agent.Scheduler.Store.{
  select_due, Task, Store, Source, new_store, add_at, due, dispatch, advance, is_due, new_task,
  runs_before, task_id,
}
use miss_raspberry_agent.Scheduler.Store.Laws.{IsValid, IsValid-new_store, add_at-IsValid}
use miss_raspberry_agent.Scheduler.Store.Dispatch.Loop.{Apart}
use miss_raspberry_agent.Scheduler.Store.Dispatch.Reachable.{Reachable, initial, step, adds}
use miss_raspberry_agent.Scheduler.Store.Dispatch.Ticks.{IsSingle}
use miss_raspberry_agent.Scheduler.Store.Dispatch.Settled.{dispatch_lem, dispatch-dropped, settle}

-- 08:00 on every day
abbrev pub breakfast : Schedule
breakfast = record (blank daily) { times = 480 ∷ [] }

-- 2026-01-01, at `m` minutes
abbrev pub new_year : ℕ → Time
new_year m = record { wall = (739616 * 1440 + m) * minute_ns }

abbrev pub no_seconds : ℕ → Text
no_seconds d = []

abbrev pub chat : Source
chat = record {
  description = codes "chat";
  target_type = codes "private";
  target_id = pos 7;
  user_id = pos 7;
}

abbrev pub one_task : Store
one_task = (add_at no_seconds (codes "eat") (some breakfast) chat (new_year 0) new_store).0

breakfast-next : next breakfast (new_year 0) ≡ some (new_year 480)
unfolding next scan_days search_days fires_on next_at_day time_at day_number days_before_year
    days_before_month days_in_month is_leap date date_of find_year find_month days_in_year add_days
breakfast-next = refl

breakfast-repeats : repeats breakfast ≡ true
unfolding repeats
breakfast-repeats = refl

pub breakfast-IsDayTimes : IsDayTimes breakfast.times
breakfast-IsDayTimes = (omega arith, tt, tt)

breakfast_fires : fires_on breakfast (midnight 739616) ≡ true
unfolding fires_on
breakfast_fires = refl

abbrev breakfast_firing : IsFiring breakfast (new_year 480)
breakfast_firing = record {
  day = 739616;
  minute = 480;
  on_day = breakfast_fires;
  listed = inl refl;
  moment = refl;
}

next_sound_example : IsFiring breakfast (new_year 480) × ((new_year 0).wall < (new_year 480).wall)
next_sound_example =
    next_sound breakfast (new_year 0) breakfast-repeats breakfast-IsDayTimes (new_year 480)
      breakfast-next

near_breakfast : 739616 < (new_year 0).wall / day_ns + search_days daily
unfolding search_days
near_breakfast = omega arith

next_complete_example :
    (t : Time) × (next breakfast (new_year 0) ≡ some t) × (t.wall ≤ (new_year 480).wall)
next_complete_example =
    next_complete breakfast (new_year 0) breakfast-repeats breakfast-IsDayTimes (new_year 480)
      breakfast_firing (omega arith) near_breakfast

pub one_task-IsValid : IsValid one_task
one_task-IsValid =
    add_at-IsValid no_seconds (codes "eat") breakfast chat (new_year 0) new_store IsValid-new_store
      (omega arith)

abbrev pub eat : Task
eat = new_task no_seconds 1 (codes "eat") breakfast chat (new_year 0) (new_year 480)

pub eat-due : due (new_year 480) one_task ≡ eat ∷ []
unfolding add_at due select_due is_due unix sort_by insert_by Table.values Table.put next scan_days
    search_days fires_on next_at_day time_at day_number days_before_year days_before_month
    days_in_month is_leap date date_of find_year find_month days_in_year add_days new_task
eat-due = refl

pub one_task-due : length (due (new_year 480) one_task) ≤ 1
one_task-due = rw eat-due (omega arith)

dispatch_lem_example :
    ((t : Task)
      → Mem t (dispatch 1 (new_year 480) one_task).sent
        ↔ ((Table.get t.id one_task.tasks ≡ some t) × (is_due (new_year 480) t ≡ true)))
    × Apart (new_year 480) (dispatch 1 (new_year 480) one_task).sent
    × IsSorted runs_before (dispatch 1 (new_year 480) one_task).sent
    × ((dispatch 1 (new_year 480) one_task).open_ctx ≡ true)
    × ((k : Text)
        → Table.get k (dispatch 1 (new_year 480) one_task).store.tasks
          ≡ settle (new_year 480) (Table.get k one_task.tasks))
dispatch_lem_example = dispatch_lem 1 (new_year 480) one_task one_task-IsValid one_task-due

one_task-Reachable : Reachable one_task
one_task-Reachable = step new_store one_task initial (
    adds no_seconds (codes "eat") breakfast chat (new_year 0) new_store breakfast-IsDayTimes
      (omega arith))

dispatch-dropped_example :
    ((dispatch 0 (new_year 480) one_task).sent ≡ [])
    × ((dispatch 0 (new_year 480) one_task).open_ctx ≡ false)
    × (Table.get eat.id (dispatch 0 (new_year 480) one_task).store.tasks
        ≡ advance (new_year 480) eat)
dispatch-dropped_example = dispatch-dropped (new_year 480) one_task one_task-IsValid eat [] eat-due

-- 08:00 on 2026-01-01, once
abbrev pub one_shot : Schedule
one_shot = record (blank once) { at = new_year 480 }

abbrev pub shot : Task
shot = new_task no_seconds 1 (codes "call") one_shot chat (new_year 0) (new_year 480)

abbrev pub shot_store : Store
shot_store = (add_at no_seconds (codes "call") (some one_shot) chat (new_year 0) new_store).0

shot-Reachable : Reachable shot_store
shot-Reachable =
    step new_store shot_store initial
      (adds no_seconds (codes "call") one_shot chat (new_year 0) new_store tt (omega arith))

pub shot-found : Table.get (codes "task-1") shot_store.tasks ≡ some shot
unfolding add_at new_task Table.put Table.get next text_eq task_id numbered format_int
shot-found = refl

shot-IsSingle : IsSingle (codes "task-1") shot_store
unfolding new_task repeats
shot-IsSingle t found =
    let same : some shot ≡ some t = sym shot-found ∙ found in
    let alike : shot ≡ t = cc in subst (λ (u : Task). u.repeat ≡ false) alike refl
