-- ===== src/Scheduler/Tool/Answers.antt =====
-- What the answers of the `schedule_task` tool say of the task store.
use miss_raspberry_agent.Prelude.{
  if◌then◌else◌, ℤ, pos, ltb_ℤ, leb_ℤ, inc64, ℕ_eq, ℤ_eq, ℕ, ◌≡◌, true, false, ◌||◌, Option, none,
  some, List, Text, codes, text_eq, text_eq_inst, is_empty, Result, ok, err,
}
use miss_raspberry_agent.Prelude.Table
use miss_raspberry_agent.Scheduler.Calendar.{Time}
use miss_raspberry_agent.Scheduler.Schedule.{Schedule, next}
use miss_raspberry_agent.Scheduler.Store.{AddError, expired, Source, Task, Store, new_task, list}
use miss_raspberry_agent.Scheduler.Tool.{
  ScheduleTaskInput, ScheduleTaskOutput, Message, no_message, created, cancelled, missing, Error,
  content_required, target_id_required, task_id_required, unknown_action, in_store, build_schedule,
  task_source,
}

-- A task to whom a reply can go: it has a target ID if it has a target type.
abbrev pub HasTarget : Text → ℤ → Type 0
HasTarget target_type target_id = (is_empty target_type || ltb_ℤ (pos 0) target_id) ≡ true

module _ (parse_in_location : Text → Text → Option Time) (seconds : ℕ → Text) (now : Time)
    (current : Option Source) (input : ScheduleTaskInput) where
  -- A task that the call has made: from its content, the schedule that its fields give, and its source
  pub record IsCreated (s s' : Store) (t : Task) : Type 0 where
    pub asked : input.action ≡ codes "create"
    pub filled : is_empty input.content ≡ false
    pub sch : Schedule
    pub built : build_schedule parse_in_location input ≡ ok sch
    pub first : Time
    pub found : next sch now ≡ some first
    pub made :
        t
        ≡ new_task seconds
            (inc64 s.next_id)
            input.content
            sch
            (task_source parse_in_location current input)
            now
            first
    pub targeted : HasTarget t.target_type t.target_id
    pub fresh : Table.get t.id s.tasks ≡ none
    pub stored :
        (id : Text)
        → Table.get id s'.tasks ≡ (if text_eq t.id id then some t else Table.get id s.tasks)

  -- What a message tells of the call and of the store before and after it.
  abbrev pub Tells : Store → Store → List Task → Message → Type 0
  Tells s s' tasks no_message = (input.action ≡ codes "list") × (s' ≡ s) × (tasks ≡ list s)
  Tells s s' tasks (missing id) =
      (input.action ≡ codes "cancel")
      × (id ≡ input.task_id)
      × (Table.get id s.tasks ≡ none)
      × (s' ≡ s)
  Tells s s' tasks (created t) = IsCreated s s' t
  Tells s s' tasks (cancelled t) =
      (input.action ≡ codes "cancel")
      × (t.id ≡ input.task_id)
      × (Table.get t.id s.tasks ≡ some t)
      × ((id : Text)
          → Table.get id s'.tasks ≡ (if text_eq t.id id then none else Table.get id s.tasks))

  -- Why a call is answered by an error
  pub data Refused : Error → Type 0 where
    blank : input.action ≡ codes "create" → is_empty input.content ≡ true → Refused content_required
    lost :
        input.action ≡ codes "create"
        → (let src = task_source parse_in_location current input in
            (is_empty src.target_type ≡ false) × (leb_ℤ src.target_id (pos 0) ≡ true))
        → Refused target_id_required
    unbuilt :
        (e : Error)
        → input.action ≡ codes "create"
        → build_schedule parse_in_location input ≡ err e
        → Refused e
    never_fires :
        (sch : Schedule)
        → input.action ≡ codes "create"
        → build_schedule parse_in_location input ≡ ok sch
        → next sch now ≡ none
        → Refused (in_store expired)
    unnamed :
        input.action ≡ codes "cancel" → is_empty input.task_id ≡ true → Refused task_id_required
    unknown :
        text_eq input.action (codes "create") ≡ false
        → text_eq input.action (codes "list") ≡ false
        → text_eq input.action (codes "cancel") ≡ false
        → Refused (unknown_action input.action)

  -- What the answer of the tool says.
  abbrev pub TaskAnswer : Store → Store × Result Error ScheduleTaskOutput → Type 0
  TaskAnswer s (s', err e) = (s' ≡ s) × Refused e
  TaskAnswer s (s', ok out) = Tells s s' out.tasks out.message

abbrev ok_task : Task → Result AddError Task
ok_task t = ok t

module _ (parse_in_location : Text → Text → Option Time) (seconds : ℕ → Text) (now : Time)
    (current : Option Source) (input : ScheduleTaskInput) (s : Store) where
  abbrev Answers : Store × Result Error ScheduleTaskOutput → Type 0
  Answers = TaskAnswer parse_in_location seconds now current input s
