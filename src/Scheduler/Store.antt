-- ===== src/Scheduler/Store.antt =====
-- internal/scheduler/store.go: the task store and the dispatcher. A method takes the store and returns
-- the new one beside its result; the lock makes each of them one step.
pub mod Laws
pub mod Dispatch
use miss_raspberry_agent.Prelude.{
  if◌then◌else◌, length, ℤ, pos, ltb_ℤ, leb_ℤ, ◌==ℤ◌, inc64, ℕ_eq, ℤ_eq, ℕ, zero, suc, ◌-◌, Bool,
  true, false, not, Option, none, some, List, [], ◌∷◌, ◌++◌, Text, codes, text_eq_inst, text_ltb,
  Result, ok, err,
}
use miss_raspberry_agent.Prelude.Table
use miss_raspberry_agent.Prelude.Table.{Table}
use miss_raspberry_agent.Prelude.Ids.{numbered}
use miss_raspberry_agent.Prelude.Sorting.{sort_by}
use miss_raspberry_agent.Scheduler.Calendar.{Time, unix}
use miss_raspberry_agent.Scheduler.Schedule.{Kind, Schedule, repeats, next}
use miss_raspberry_agent.Scheduler.Builder.Describe.{describe}
use miss_raspberry_agent.Clock.{format_date_time, from_unix}

pub record Source : Type 0 where
  pub description : Text
  pub target_type : Text
  pub target_id : ℤ
  pub user_id : ℤ

pub record Task : Type 0 where
  pub id : Text
  pub content : Text
  pub schedule : Text
  pub kind : Kind
  pub repeat : Bool
  pub next_run_at : ℤ
  pub source : Text
  pub target_type : Text
  pub target_id : ℤ
  pub user_id : ℤ
  pub created_at : ℤ
  pub sch : Schedule

pub record Store : Type 0 where
  pub tasks : Table Text Task
  pub next_id : ℕ

-- NewStore
abbrev pub new_store : Store
new_store = record { tasks = []; next_id = 0 }

pub data AddError : Type 0 where
  schedule_required expired : AddError

-- fmt.Sprintf("task-%d", s.nextID)
unfoldable pub task_id : ℕ → Text
task_id = numbered (codes "task-")

-- NextRunText; the location of a task that AddAt makes is not nil.
unfoldable pub next_run_text : Task → Text
next_run_text t =
    if leb_ℤ t.next_run_at (pos 0) then codes "-" else format_date_time (from_unix t.next_run_at)

-- The task that AddAt stores.
unfoldable pub new_task : (ℕ → Text) → ℕ → Text → Schedule → Source → Time → Time → Task
new_task seconds n content sch src now first = record {
  id = task_id n;
  content = content;
  schedule = describe seconds sch;
  kind = sch.kind;
  repeat = repeats sch;
  next_run_at = unix first;
  source = src.description;
  target_type = src.target_type;
  target_id = src.target_id;
  user_id = src.user_id;
  created_at = unix now;
  sch = sch;
}

-- AddAt; `seconds` prints a duration in floating point, for Describe.
unfoldable pub add_at :
    (ℕ → Text) → Text → Option Schedule → Source → Time → Store → Store × Result AddError Task
add_at seconds content none src now s = (s, err schedule_required)
add_at seconds content (some sch) src now s = elim (next sch now) [
  | none ↦ (s, err expired)
  | some first ↦
      let n = inc64 s.next_id in
      let t = new_task seconds n content sch src now first in
      (record { tasks = Table.put t.id t s.tasks; next_id = n }, ok t)
]

-- The `less` of List.
unfoldable pub task_less : Task → Task → Bool
task_less a b =
    if not (a.next_run_at ==ℤ b.next_run_at)
    then ltb_ℤ a.next_run_at b.next_run_at
    else text_ltb a.id b.id

-- List
unfoldable pub list : Store → List Task
list s = sort_by task_less (Table.values s.tasks)

-- Cancel
unfoldable pub cancel : Text → Store → Store × Option Task
cancel id s = elim (Table.get id s.tasks) [
  | none ↦ (s, none)
  | some t ↦ (record s { tasks = Table.delete id s.tasks }, some t)
]

unfoldable pub is_due : Time → Task → Bool
is_due now t = leb_ℤ t.next_run_at (unix now)

unfoldable pub select_due : Time → List Task → List Task
select_due now [] = []
select_due now (t ∷ ts) = let rest = select_due now ts in if is_due now t then t ∷ rest else rest

abbrev pub runs_before : Task → Task → Bool
runs_before a b = ltb_ℤ a.next_run_at b.next_run_at

-- due
unfoldable pub due : Time → Store → List Task
unfolding select_due
due now s = sort_by runs_before (select_due now (Table.values s.tasks))

-- What dispatch leaves of a task that it fires: nothing, or the task at its next time.
unfoldable pub advance : Time → Task → Option Task
advance now t = elim (next t.sch now) [
  | none ↦ none
  | some first ↦ if not t.repeat then none else some (record t { next_run_at = unix first })
]

-- One round of dispatch's loop, up to the send: the new store, and the event to send.
unfoldable pub fire : Time → Task → Store → Store × Option Task
fire now t s = elim (Table.get t.id s.tasks) [
  | none ↦ (s, none)
  | some cur ↦ if ltb_ℤ (unix now) cur.next_run_at then (s, none) else (
    elim (advance now cur) [
      | none ↦ record s { tasks = Table.delete cur.id s.tasks }
      | some later ↦ record s { tasks = Table.put cur.id later s.tasks }
    ],
    some cur,
  )
]

-- What dispatch has done: the store, the events sent, and whether the context was still open.
pub record Dispatched : Type 0 where
  pub store : Store
  pub sent : List Task
  pub open_ctx : Bool

-- The loop of dispatch. `room` is the number of sends that go through before the context is done,
-- each once the receiver has made room in the channel.
unfoldable pub dispatch_each : ℕ → Time → List Task → Store → Dispatched
dispatch_each room now [] s = record { store = s; sent = []; open_ctx = true }
dispatch_each room now (t ∷ ts) s =
    let s' = (fire now t s).0 in
    elim (fire now t s).1 [
      | none ↦ dispatch_each room now ts s'
      | some event ↦ elim room [
        | zero ↦ record { store = s'; sent = []; open_ctx = false }
        | suc r ↦ let d = dispatch_each r now ts s' in record d { sent = event ∷ d.sent }
      ]
    ]

-- dispatch
unfoldable pub dispatch : ℕ → Time → Store → Dispatched
dispatch room now s = dispatch_each room now (due now s) s

-- Run of the Scheduler, by its ticks: the time of each, and how many sends go through in its dispatch. It
-- ends when a dispatch says that the context is done.
unfoldable pub run_ticks : List (ℕ × Time) → Store → Store × List Task
run_ticks [] s = (s, [])
run_ticks ((room, now) ∷ ticks) s =
    let d = dispatch room now s in
    let rest = run_ticks ticks d.store in
    if d.open_ctx then (rest.0, d.sent ++ rest.1) else (d.store, d.sent)

-- Tick: its context is never done.
unfoldable pub tick : Time → Store → Store
tick now s = (dispatch (length (due now s)) now s).store
