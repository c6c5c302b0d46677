-- ===== src/Scheduler/Tool.antt =====
-- internal/tool/schedule/tool.go: the `schedule_task` tool.
pub mod Answers
mod Tests
use miss_raspberry_agent.Prelude.{
  if◌then◌else◌, ℤ, pos, pos_part, ltb_ℤ, leb_ℤ, ◌==ℤ◌, int64_mod, signed64, ℕ_eq, ℤ_eq, ℕ, ◌+◌,
  ◌*◌, ◌%◌, not, ◌&&◌, ◌||◌, Option, none, some, List, [], Text, codes, text_eq, text_eq_inst,
  is_empty, Result, ok, err,
}
use miss_raspberry_agent.Prelude.Table
use miss_raspberry_agent.Scheduler.Calendar.{Time, minute_ns, day_ns}
use miss_raspberry_agent.Scheduler.Schedule.{Schedule}
use miss_raspberry_agent.Scheduler.Builder
use miss_raspberry_agent.Scheduler.Builder.{
  new_once, new_relative, new_daily, new_weekly, new_monthly, new_yearly,
}
use miss_raspberry_agent.Scheduler.Store.{Source, Task, Store, AddError, add_at, list, cancel}

pub record ScheduleTaskInput : Type 0 where
  pub action : Text
  pub content : Text
  pub type : Text
  pub datetime : Text
  pub minutes : ℤ
  pub hours : ℤ
  pub days : ℤ
  pub weekday : Text
  pub time : Text
  pub day_of_month : ℤ
  pub date : Text
  pub task_id : Text
  pub target_type : Text
  pub target_id : ℤ

-- The texts that the tool answers with, by what they name.
pub data Message : Type 0 where
  no_message : Message
  created cancelled : Task → Message
  missing : Text → Message

pub record ScheduleTaskOutput : Type 0 where
  pub task : Option Task
  pub tasks : List Task
  pub message : Message

pub data Error : Type 0 where
  content_required target_id_required datetime_required delay_required delay_negative : Error
  task_id_required : Error
  unknown_type unknown_action : Text → Error
  in_schedule : Builder.Error → Error
  in_store : AddError → Error

-- The delay of a relative schedule, in Go's 64-bit arithmetic, for counts that are not negative
unfoldable pub relative_delay : ℕ → ℕ → ℕ → ℤ
relative_delay minutes hours days =
    signed64 ((minutes * minute_ns + hours * (60 * minute_ns) + days * day_ns) % int64_mod)

abbrev pub in_builder : Result Builder.Error Schedule → Result Error Schedule
in_builder (ok s) = ok s
in_builder (err e) = err (in_schedule e)

-- The answers to what AddAt and Cancel return
abbrev pub answer_add : Store × Result AddError Task → Store × Result Error ScheduleTaskOutput
answer_add (s, err e) = (s, err (in_store e))
answer_add (s, ok t) = (s, ok (record { task = some t; tasks = []; message = created t }))

abbrev pub answer_cancel : Text → Store × Option Task → Store × Result Error ScheduleTaskOutput
answer_cancel id (s, none) = (s, ok (record { task = none; tasks = []; message = missing id }))
answer_cancel id (s, some t) = (s, ok (record { task = some t; tasks = []; message = cancelled t }))

-- `parse_in_location` is time.ParseInLocation, in the store's time zone.
module _ (parse_in_location : Text → Text → Option Time) where
  unfoldable pub build_once : Text → Result Error Schedule
  build_once datetime = elim (Builder.parse_date_time parse_in_location datetime) [
    | err e ↦ err (in_schedule e)
    | ok at ↦ in_builder (new_once at)
  ]

  -- buildSchedule
  unfoldable pub build_schedule : ScheduleTaskInput → Result Error Schedule
  build_schedule input =
      if text_eq input.type (codes "once")
      then (if is_empty input.datetime then err datetime_required else build_once input.datetime)
      else if text_eq input.type (codes "relative")
      then (if (input.minutes ==ℤ pos 0) && (input.hours ==ℤ pos 0) && (input.days ==ℤ pos 0)
          then err delay_required
          else if ltb_ℤ input.minutes (pos 0)
              || ltb_ℤ input.hours (pos 0)
              || ltb_ℤ input.days (pos 0)
          then err delay_negative
          else in_builder (
              new_relative (
                relative_delay (pos_part input.minutes) (pos_part input.hours)
                  (pos_part input.days))))
      else if text_eq input.type (codes "daily")
      then in_builder (new_daily input.time)
      else if text_eq input.type (codes "weekly")
      then in_builder (new_weekly input.weekday input.time)
      else if text_eq input.type (codes "monthly")
      then in_builder (new_monthly input.day_of_month input.time)
      else if text_eq input.type (codes "yearly")
      then in_builder (new_yearly input.date input.time)
      else err (unknown_type input.type)

  -- The source of a new task: the current one, if there is a provider, under the input's target
  unfoldable pub task_source : Option Source → ScheduleTaskInput → Source
  task_source current input =
      let src = elim current as (λ x. Source) [
        | none ↦ record { description = []; target_type = []; target_id = pos 0; user_id = pos 0 }
        | some s ↦ s
      ] in
      record src {
        target_type = if is_empty input.target_type then src.target_type else input.target_type;
        target_id = if ltb_ℤ (pos 0) input.target_id then input.target_id else src.target_id;
      }

  module _ (seconds : ℕ → Text) (now : Time) where
    unfoldable pub add_task :
        Text → Schedule → Source → Store → Store × Result Error ScheduleTaskOutput
    add_task content sch src s = answer_add (add_at seconds content (some sch) src now s)

    unfoldable pub run_create :
        Option Source → ScheduleTaskInput → Store → Store × Result Error ScheduleTaskOutput
    run_create current input s =
        let src = task_source current input in
        if is_empty input.content
        then (s, err content_required)
        else if not (is_empty src.target_type) && leb_ℤ src.target_id (pos 0)
        then (s, err target_id_required)
        else elim (build_schedule input) [
          | err e ↦ (s, err e)
          | ok sch ↦ add_task input.content sch src s
        ]

    unfoldable pub run_cancel : Text → Store → Store × Result Error ScheduleTaskOutput
    run_cancel id s = answer_cancel id (cancel id s)

    -- RunScheduleTask
    unfoldable pub run_schedule_task :
        Option Source → ScheduleTaskInput → Store → Store × Result Error ScheduleTaskOutput
    run_schedule_task current input s =
        if text_eq input.action (codes "create")
        then run_create current input s
        else if text_eq input.action (codes "list")
        then (s, ok (record { task = none; tasks = list s; message = no_message }))
        else if text_eq input.action (codes "cancel")
        then (if is_empty input.task_id
            then (s, err task_id_required)
            else run_cancel input.task_id s)
        else (s, err (unknown_action input.action))
