-- ===== src/Scheduler/Store/Dispatch/Reachable.antt =====
-- Every store that AddAt, Cancel and dispatch lead to, dispatches that end early included.
use miss_raspberry_agent.Prelude.{
  Bool-cases, Option-cases, length, All, ltb_ℤ, max_int64, ℕ_eq, ℤ_eq, ℕ, zero, suc, ◌≤◌, ◌<◌, ◌≡◌,
  refl, sym, subst, inl, inr, false, some, List, [], ◌∷◌, arith, Text, text_eq_inst,
}
use miss_raspberry_agent.Prelude.Table
use miss_raspberry_agent.Prelude.Table.{put-IsMap, delete-IsMap}
use miss_raspberry_agent.Prelude.Table.Entries.{All-put, All-delete, All-get}
use miss_raspberry_agent.Scheduler.Calendar.{Time, unix}
use miss_raspberry_agent.Scheduler.Schedule.{Schedule, next}
use miss_raspberry_agent.Scheduler.Schedule.Firing.{IsDayTimes}
use miss_raspberry_agent.Scheduler.Store.{
  Task, Source, Store, new_store, new_task, add_at, cancel, is_due, due, advance, fire,
  dispatch_each, dispatch,
}
use miss_raspberry_agent.Scheduler.Store.Laws.{
  IsValid, IsValid-new_store, KeyedEntry, IssuedEntry, add_at-IsValid, cancel-IsValid,
}
use miss_raspberry_agent.Scheduler.Store.Dispatch.Loop.{id-advance}
use miss_raspberry_agent.Scheduler.Store.Dispatch.Settled.{IsPlanned, dispatch-not_due}

abbrev pub PlannedEntry : Text × Task → Type 0
PlannedEntry entry = IsPlanned entry.1

-- What holds of the store at all times.
pub record IsSound (s : Store) : Type 0 where
  pub valid : IsValid s
  pub planned : All PlannedEntry s.tasks

advance-IsPlanned : (now : Time) (t u : Task) → IsPlanned t → advance now t ≡ some u → IsPlanned u
unfolding advance
advance-IsPlanned now t u p from = elim (Option-cases (next t.sch now)) [
  | inl never ↦ absurd (ground (arith, never, from))
  | inr (first, found) ↦ elim (Bool-cases t.repeat) [
    | inl again ↦
        let same : record t { next_run_at = unix first } ≡ u = ground (arith, found, again, from) in
        subst IsPlanned same (record { same_repeat = p.same_repeat; day_times = p.day_times })
    | inr single ↦ absurd (ground (arith, found, single, from))
  ]
]

module _ (now : Time) (s : Store) (v : IsSound s) (cur : Task)
    (stored : Table.get cur.id s.tasks ≡ some cur) where
  deleted-IsSound : IsSound (record s { tasks = Table.delete cur.id s.tasks })
  deleted-IsSound = record {
    valid = record {
      unique = delete-IsMap cur.id s.tasks v.valid.unique;
      keyed = All-delete KeyedEntry cur.id s.tasks v.valid.keyed;
      issued = All-delete (IssuedEntry s.next_id) cur.id s.tasks v.valid.issued;
      small = v.valid.small;
    };
    planned = All-delete PlannedEntry cur.id s.tasks v.planned;
  }

  advanced-IsSound :
      (later : Task)
      → advance now cur ≡ some later
      → IsSound (record s { tasks = Table.put cur.id later s.tasks })
  advanced-IsSound later from = record {
    valid = record {
      unique = put-IsMap cur.id later s.tasks v.valid.unique;
      keyed = All-put KeyedEntry cur.id later s.tasks (id-advance now cur later from) v.valid.keyed;
      issued =
          All-put (IssuedEntry s.next_id) cur.id later s.tasks
            (All-get (IssuedEntry s.next_id) cur.id cur s.tasks v.valid.issued stored)
            v.valid.issued;
      small = v.valid.small;
    };
    planned =
        All-put PlannedEntry cur.id later s.tasks
          (advance-IsPlanned now cur later
            (All-get PlannedEntry cur.id cur s.tasks v.planned stored) from)
          v.planned;
  }

pub fire-IsSound : (now : Time) (t : Task) (s : Store) → IsSound s → IsSound (fire now t s).0
unfolding fire
fire-IsSound now t s v = elim (Option-cases (Table.get t.id s.tasks)) [
  | inl absent ↦ rw (absent, fire) v
  | inr (cur, found) ↦
      let key : cur.id ≡ t.id = All-get KeyedEntry t.id cur s.tasks v.valid.keyed found in
      let stored : Table.get cur.id s.tasks ≡ some cur =
        subst (λ i. Table.get i s.tasks ≡ some cur) (sym key) found in
      elim (Bool-cases (ltb_ℤ (unix now) cur.next_run_at)) [
        | inl early ↦ rw (found, early, fire) v
        | inr reached ↦ elim (Option-cases (advance now cur)) [
          | inl done ↦ rw (found, reached, done, fire) (deleted-IsSound now s v cur stored)
          | inr (later, from) ↦
              rw (found, reached, from, fire) (advanced-IsSound now s v cur stored later from)
        ]
      ]
]

pub dispatch_each-IsSound :
    (room : ℕ) (now : Time) (ts : List Task) (s : Store)
    → IsSound s
    → IsSound (dispatch_each room now ts s).store
unfolding dispatch_each
dispatch_each-IsSound room now [] s v = v
dispatch_each-IsSound zero now (t ∷ ts) s v =
    let fired = fire-IsSound now t s v in
    elim (Option-cases (fire now t s).1) [
      | inl passed ↦
          rw (passed, dispatch_each) (dispatch_each-IsSound zero now ts (fire now t s).0 fired)
      | inr (event, sends) ↦ rw (sends, dispatch_each) fired
    ]
dispatch_each-IsSound (suc room) now (t ∷ ts) s v =
    let fired = fire-IsSound now t s v in
    elim (Option-cases (fire now t s).1) [
      | inl passed ↦
          rw (passed, dispatch_each)
            (dispatch_each-IsSound (suc room) now ts (fire now t s).0 fired)
      | inr (event, sends) ↦
          rw (sends, dispatch_each) (dispatch_each-IsSound room now ts (fire now t s).0 fired)
    ]

pub add_at-IsSound :
    (seconds : ℕ → Text) (content : Text) (sch : Schedule) (src : Source) (now : Time) (s : Store)
    → IsDayTimes sch.times
    → s.next_id < max_int64
    → IsSound s
    → IsSound (add_at seconds content (some sch) src now s).0
unfolding add_at new_task
add_at-IsSound seconds content sch src now s times room v = record {
  valid = add_at-IsValid seconds content sch src now s v.valid room;
  planned = elim (Option-cases (next sch now)) [
    | inl never ↦ rw (never, add_at) v.planned
    | inr (first, found) ↦
        rw (found, add_at)
          (All-put PlannedEntry _ _ s.tasks (record { same_repeat = refl; day_times = times })
            v.planned)
  ];
}

pub cancel-IsSound : (id : Text) (s : Store) → IsSound s → IsSound (cancel id s).0
unfolding cancel
cancel-IsSound id s v = record {
  valid = cancel-IsValid id s v.valid;
  planned = elim (Option-cases (Table.get id s.tasks)) [
    | inl absent ↦ rw (absent, cancel) v.planned
    | inr (t, found) ↦ rw (found, cancel) (All-delete PlannedEntry id s.tasks v.planned)
  ];
}

-- One call: AddAt of a schedule whose times are minutes of a day in order, while the counter has room;
-- Cancel; or a dispatch at any time, with any number of sends before its context is done.
pub data Step : Store → Store → Type 0 where
  adds :
      (seconds : ℕ → Text) (content : Text) (sch : Schedule) (src : Source) (now : Time) (s : Store)
      → IsDayTimes sch.times
      → s.next_id < max_int64
      → Step s (add_at seconds content (some sch) src now s).0
  cancels : (id : Text) (s : Store) → Step s (cancel id s).0
  dispatches : (room : ℕ) (now : Time) (s : Store) → Step s (dispatch room now s).store

pub data Reachable : Store → Type 0 where
  initial : Reachable new_store
  step : (s s' : Store) → Reachable s → Step s s' → Reachable s'

pub Step-IsSound : (s s' : Store) → Step s s' → IsSound s → IsSound s'
unfolding dispatch
Step-IsSound s s' (adds seconds content sch src now _ times room) v =
    add_at-IsSound seconds content sch src now s times room v
Step-IsSound s s' (cancels id _) v = cancel-IsSound id s v
Step-IsSound s s' (dispatches room now _) v = dispatch_each-IsSound room now (due now s) s v

-- Every store that calls of AddAt, Cancel and dispatch lead to from a new one is sound, in whatever order
-- they come and wherever the context ends a dispatch: each task stands under its own id, no id stands
-- twice, all ids come from earlier calls of AddAt, and each task repeats as its schedule does.
pub Reachable-IsSound : (s : Store) → Reachable s → IsSound s
Reachable-IsSound s initial = record { valid = IsValid-new_store; planned = tt }
Reachable-IsSound s (step s' _ before last) = Step-IsSound s' s last (Reachable-IsSound s' before)

-- In a reachable store no task is due any more after a dispatch whose sends all go through.
pub Reachable-not_due :
    (s : Store) (room : ℕ) (now : Time)
    → Reachable s
    → length (due now s) ≤ room
    → All (λ entry. is_due now entry.1 ≡ false) (dispatch room now s).store.tasks
Reachable-not_due s room now reached fits =
    let sound = Reachable-IsSound s reached in
    dispatch-not_due room now s sound.valid fits sound.planned
