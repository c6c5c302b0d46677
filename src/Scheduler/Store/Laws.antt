-- ===== src/Scheduler/Store/Laws.antt =====
-- The task store's invariant, and its preservation by AddAt and Cancel.
use miss_raspberry_agent.Prelude.{
  if◌then◌else◌, Option-cases, max_int64, inc64, ℕ_eq, ℤ_eq, ℕ, ◌≤◌, ◌<◌, ◌≡◌, refl, ◌⊎◌, inl, inr,
  false, none, some, arith, Text, codes, text_eq, text_eq_iff, text_eq_inst, ok, err,
}
use miss_raspberry_agent.Prelude.Table
use miss_raspberry_agent.Prelude.Table.{IsMap, put-IsMap, delete-IsMap, get-put, get-delete}
use miss_raspberry_agent.Prelude.Table.Entries.{IsKeyed, All-put, All-delete}
use miss_raspberry_agent.Prelude.Ids.{IsIssued, AllIssued, AllIssued-put, fresh_id}
use miss_raspberry_agent.Scheduler.Calendar.{Time, unix}
use miss_raspberry_agent.Scheduler.Schedule.{Schedule, next}
use miss_raspberry_agent.Scheduler.Store.{
  Task, Source, Store, new_store, expired, task_id, new_task, add_at, cancel,
}

pub record IsValid (s : Store) : Type 0 where
  pub unique : IsMap s.tasks
  pub keyed : IsKeyed (λ (t : Task). t.id) s.tasks
  pub issued : AllIssued (codes "task-") s.next_id s.tasks
  pub small : s.next_id ≤ max_int64

pub IsValid-new_store : IsValid new_store
IsValid-new_store = record { unique = tt; keyed = tt; issued = tt; small = omega arith }

abbrev pub KeyedEntry : Text × Task → Type 0
KeyedEntry entry = entry.1.id ≡ entry.0

abbrev pub IssuedEntry : ℕ → Text × Task → Type 0
IssuedEntry n entry = IsIssued (codes "task-") n entry.0

module _ (seconds : ℕ → Text) (content : Text) (sch : Schedule) (src : Source) (now : Time)
    (s : Store) (v : IsValid s) (room : s.next_id < max_int64) where
  abbrev stored : Time → Task
  stored first = new_task seconds (inc64 s.next_id) content sch src now first

  new_id : Table.has_key (task_id (inc64 s.next_id)) s.tasks ≡ false
  unfolding task_id
  new_id = fresh_id (codes "task-") s.next_id s.tasks room v.issued

  -- AddAt of a schedule leaves a valid store valid, if its counter has not reached its maximum.
  pub add_at-IsValid : IsValid (add_at seconds content (some sch) src now s).0
  unfolding add_at new_task task_id
  add_at-IsValid = elim (Option-cases (next sch now)) [
    | inl never ↦ rw (never, add_at) v
    | inr (first, found) ↦
        rw (found, add_at)
          (record {
            unique = put-IsMap _ _ s.tasks v.unique;
            keyed = All-put KeyedEntry _ _ s.tasks refl v.keyed;
            issued = AllIssued-put (codes "task-") s.next_id _ s.tasks room v.issued;
            small = omega arith;
          })
  ]

  -- What AddAt does at a first firing `first`.
  abbrev pub Added : Time → Type 0
  Added first =
      ((add_at seconds content (some sch) src now s).1 ≡ ok (stored first))
      × ((stored first).next_run_at ≡ unix first)
      × (Table.get (stored first).id s.tasks ≡ none)
      × ((id : Text)
          → Table.get id (add_at seconds content (some sch) src now s).0.tasks
            ≡ (if text_eq (stored first).id id then some (stored first) else Table.get id s.tasks))

  -- On a valid store whose counter has not reached its maximum, either the schedule has no next
  -- firing, and AddAt fails and leaves the store as it was; or AddAt stores, under an id that no task
  -- had, a task whose next run is the next firing, and leaves all other tasks as they were.
  pub add_at_lem :
      ((next sch now ≡ none) × (add_at seconds content (some sch) src now s ≡ (s, err expired)))
      ⊎ ((first : Time) × (next sch now ≡ some first) × Added first)
  unfolding add_at new_task
  add_at_lem = elim (Option-cases (next sch now)) [
    | inl never ↦ inl (never, rw (never, add_at))
    | inr (first, found) ↦ inr (
      first,
      found,
      (
        rw (found, add_at),
        refl,
        Table.get_absent _ s.tasks new_id,
        λ id. rw (found, add_at) (get-put _ id (stored first) s.tasks),
      ),
    )
  ]

module _ (id : Text) (s : Store) (v : IsValid s) where
  -- Cancel keeps the invariant.
  pub cancel-IsValid : IsValid (cancel id s).0
  unfolding cancel
  cancel-IsValid = elim (Option-cases (Table.get id s.tasks)) [
    | inl absent ↦ rw (absent, cancel) v
    | inr (t, found) ↦
        rw (found, cancel)
          (record {
            unique = delete-IsMap id s.tasks v.unique;
            keyed = All-delete KeyedEntry id s.tasks v.keyed;
            issued = All-delete (IssuedEntry s.next_id) id s.tasks v.issued;
            small = v.small;
          })
  ]

  -- On a valid store Cancel returns the task under the id, if there is one. Afterwards there is none,
  -- and every other id has the task that it had.
  pub cancel_lem :
      ((cancel id s).1 ≡ Table.get id s.tasks)
      × ((j : Text)
          → Table.get j (cancel id s).0.tasks
            ≡ (if text_eq id j then none else Table.get j s.tasks))
  unfolding cancel
  cancel_lem =
      (ground arith, λ j. ground (arith, get-delete id j s.tasks v.unique, text_eq_iff id j))
