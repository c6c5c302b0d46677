-- ===== src/App/Pipeline/Steps.antt =====
-- What one action does to a task that does not repeat, and to the counter of tasks.
use miss_raspberry_agent.Prelude.{
  if◌then◌else◌, Bool-cases, Option-cases, is_some, max_int64, inc64, ℕ_eq, ℤ_eq, ℕ, ◌+◌, ◌≤◌, ◌<◌,
  ◌≡◌, refl, sym, ap, ◌∙◌, subst, inl, inr, Option, some, List, [], arith, Text, codes, text_eq,
  text_eq_iff, text_eq_inst,
}
use miss_raspberry_agent.Prelude.Table
use miss_raspberry_agent.Prelude.Table.{get-put, get-delete}
use miss_raspberry_agent.Prelude.Ids.{IsIssued, inc64-suc, not-IsIssued}
use miss_raspberry_agent.Scheduler.Calendar.{Time}
use miss_raspberry_agent.Scheduler.Schedule.{Schedule, next}
use miss_raspberry_agent.Scheduler.Store.{
  Task, Source, Store, new_task, task_id, add_at, cancel, fire,
}
use miss_raspberry_agent.Scheduler.Store.Laws.{cancel_lem}
use miss_raspberry_agent.Scheduler.Store.Dispatch.Reachable.{IsSound}
use miss_raspberry_agent.Scheduler.Store.Dispatch.Ticks.{IsSingle, Once, fire-Once}
use miss_raspberry_agent.App.Pipeline.Tasks.{TaskStep, keeps, takes, gains, loses, TaskStep-IsSound}

next_id-fire : (now : Time) (t : Task) (s : Store) → (fire now t s).0.next_id ≡ s.next_id
unfolding fire
next_id-fire now t s = ground arith

pub next_id-cancel : (id : Text) (s : Store) → (cancel id s).0.next_id ≡ s.next_id
unfolding cancel
next_id-cancel id s = ground arith

-- What a step keeps, for an id that was given out and has no task that repeats.
pub record Settles (id : Text) (s s' : Store) (fired : List Task) : Type 0 where
  pub sound : IsSound s'
  pub grows : s.next_id ≤ s'.next_id
  pub by_one : s'.next_id ≤ s.next_id + 1
  pub once : Once id s s' fired

module _ (seconds : ℕ → Text) (content : Text) (sch : Schedule) (src : Source) (now : Time)
    (s : Store) (room : s.next_id < max_int64) where
  next_id-add_at :
      (s.next_id ≤ (add_at seconds content (some sch) src now s).0.next_id)
      × ((add_at seconds content (some sch) src now s).0.next_id ≤ s.next_id + 1)
  unfolding add_at
  next_id-add_at = elim (Option-cases (next sch now)) [
    | inl never ↦ rw (never, add_at) (omega arith)
    | inr (first, found) ↦ rw (found, add_at) (omega (arith, inc64-suc s.next_id room))
  ]

  -- An id that was given out before keeps what it has.
  pub get-add_at :
      (id : Text)
      → IsIssued (codes "task-") s.next_id id
      → Table.get id (add_at seconds content (some sch) src now s).0.tasks ≡ Table.get id s.tasks
  unfolding add_at new_task task_id
  get-add_at id given = elim (Option-cases (next sch now)) [
    | inl never ↦ rw (never, add_at) refl
    | inr (first, found) ↦
        let fresh : ¬ (task_id (inc64 s.next_id) ≡ id) = λ same.
          not-IsIssued (codes "task-") s.next_id room (
            subst (IsIssued (codes "task-") s.next_id)
              (sym same ∙ ap task_id (inc64-suc s.next_id room)) given) in
        rw (found, add_at)
          (ground (
            arith,
            get-put (task_id (inc64 s.next_id)) id
                (new_task seconds (inc64 s.next_id) content sch src now first) s.tasks,
            text_eq_iff (task_id (inc64 s.next_id)) id,
            fresh,
          ))
  ]

pub same-Once :
    (id : Text) (s s' : Store)
    → IsSingle id s
    → Table.get id s'.tasks ≡ Table.get id s.tasks
    → Once id s s' []
same-Once id s s' one same = record {
  single = λ t found. one t (sym same ∙ found);
  bound = omega (arith, ap {B = ℕ} (λ (o : Option Task). if is_some o then 1 else 0) same);
}

pub cancel-Once : (id j : Text) (s : Store) → IsSound s → IsSingle j s → Once j s (cancel id s).0 []
cancel-Once id j s v one =
    let after = (cancel_lem id s v.valid).1 j in
    elim (Bool-cases (text_eq id j)) [
      | inl gone ↦ record {
        single = λ t found. absurd (ground (arith, gone, after, found));
        bound = ground (arith, gone, after);
      }
      | inr other ↦ same-Once j s (cancel id s).0 one (ground (arith, other, after))
    ]

pub TaskStep-next_id :
    (seconds : ℕ → Text) (s s' : Store) (fired : List Task)
    → TaskStep seconds s s' fired
    → s.next_id < max_int64
    → (s.next_id ≤ s'.next_id) × (s'.next_id ≤ s.next_id + 1)
TaskStep-next_id seconds s s' fired (keeps same _) room = rw same (omega arith)
TaskStep-next_id seconds s s' fired (takes now t same _) room =
    rw same (omega (arith, next_id-fire now t s))
TaskStep-next_id seconds s s' fired (gains content sch src now _ same _) room =
    rw same (next_id-add_at seconds content sch src now s room)
TaskStep-next_id seconds s s' fired (loses id same _) room =
    rw same (omega (arith, next_id-cancel id s))

module _ (seconds : ℕ → Text) (id : Text) where
  pub TaskStep-Settles :
      (s s' : Store) (fired : List Task)
      → TaskStep seconds s s' fired
      → IsSound s
      → s.next_id < max_int64
      → IsIssued (codes "task-") s.next_id id
      → IsSingle id s
      → Settles id s s' fired
  TaskStep-Settles s s' fired step v room given one = record {
    sound = TaskStep-IsSound seconds s s' fired step v room;
    grows = counted.0;
    by_one = counted.1;
    once = settled step;
  }
    where
      counted : (s.next_id ≤ s'.next_id) × (s'.next_id ≤ s.next_id + 1)
      counted = TaskStep-next_id seconds s s' fired step room

      settled : TaskStep seconds s s' fired → Once id s s' fired
      settled (keeps same none_fired) = rw (same, none_fired) (same-Once id s s one refl)
      settled (takes now t same as_fired) = rw (same, as_fired) (fire-Once id now t s v one)
      settled (gains content sch src now times same none_fired) =
          rw (same, none_fired)
            (same-Once id s _ one (get-add_at seconds content sch src now s room id given))
      settled (loses j same none_fired) = rw (same, none_fired) (cancel-Once j id s v one)
