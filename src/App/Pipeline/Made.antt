-- ===== src/App/Pipeline/Made.antt =====
-- What AddAt makes of its arguments, and how long events keep it.
use miss_raspberry_agent.Prelude.{
  Bool-cases, Option-cases, All, ℤ, max_int64, inc64, ℕ_eq, ℤ_eq, ℕ, ◌<◌, ◌≡◌, refl, sym, ap, ◌∙◌,
  subst, inl, inr, some, List, [], ◌∷◌, ◌++◌, arith, Text, text_eq_iff, text_eq_inst, Result, ok,
  err,
}
use miss_raspberry_agent.Prelude.Table
use miss_raspberry_agent.Scheduler.Calendar.{Time, unix}
use miss_raspberry_agent.Scheduler.Schedule.{Schedule, next}
use miss_raspberry_agent.Scheduler.Builder.Describe.{describe}
use miss_raspberry_agent.Scheduler.Store.{
  Task, Source, Store, AddError, expired, new_task, task_id, add_at, advance,
}
use miss_raspberry_agent.Scheduler.Store.Laws.{add_at_lem}
use miss_raspberry_agent.Scheduler.Store.Dispatch.Reachable.{IsSound}
use miss_raspberry_agent.Agent.Loop.{enqueue_scheduled_task}
use miss_raspberry_agent.App.Pipeline.{Pipeline, Outcome, forward_from}

-- The task has this content, and was made of this schedule, from there.
pub record MadeOf (seconds : ℕ → Text) (content : Text) (sch : Schedule) (src : Source) (t : Task)
    : Type 0 where
  pub same_content : t.content ≡ content
  pub same_schedule : t.schedule ≡ describe seconds sch
  pub same_source : t.source ≡ src.description
  pub same_target_type : t.target_type ≡ src.target_type
  pub same_target_id : t.target_id ≡ src.target_id
  pub same_user_id : t.user_id ≡ src.user_id

pub All-suffix : (P : Task → Type 0) (xs ys : List Task) → All P (xs ++ ys) → All P ys
All-suffix P [] ys h = h
All-suffix P (x ∷ xs) ys h = All-suffix P xs ys h.1

-- What a forwarding takes from the channel and does to the queue
pub forward-cases :
    (fires : List Task) (now : ℤ) (p : Pipeline) (last : Outcome)
    → p.fires ≡ fires
    → forward_from fires now p ≡ some last
    → (e : Task) × (rest : List Task) × (p.fires ≡ e ∷ rest)
      × (last.forwarded ≡ e ∷ [])
      × (last.pipeline.queue ≡ enqueue_scheduled_task now e p.queue)
unfolding forward_from
forward-cases [] now p last at acted = absurd (ground (arith, acted))
forward-cases (e ∷ rest) now p last at acted =
    let same = some_injective _ last acted in
    (
      e,
      rest,
      at,
      ap (λ (out : Outcome). out.forwarded) (sym same),
      ap (λ (out : Outcome). out.pipeline.queue) (sym same),
    )
  where
    some_injective : (x y : Outcome) → some x ≡ some y → x ≡ y
    some_injective x y eq = ground (arith, eq)

module _ (seconds : ℕ → Text) (content : Text) (sch : Schedule) (src : Source) where
  pub advance-MadeOf :
      (now : Time) (t u : Task)
      → MadeOf seconds content sch src t
      → advance now t ≡ some u
      → MadeOf seconds content sch src u
  unfolding advance
  advance-MadeOf now t u m from = elim (Option-cases (next t.sch now)) [
    | inl never ↦ absurd (ground (arith, never, from))
    | inr (first, found) ↦ elim (Bool-cases t.repeat) [
      | inr single ↦ absurd (ground (arith, found, single, from))
      | inl again ↦
          let same : record t { next_run_at = unix first } ≡ u =
            ground (arith, found, again, from) in
          subst (MadeOf seconds content sch src) same (record {
            same_content = m.same_content;
            same_schedule = m.same_schedule;
            same_source = m.same_source;
            same_target_type = m.same_target_type;
            same_target_id = m.same_target_id;
            same_user_id = m.same_user_id;
          })
    ]
  ]

  new_task-MadeOf :
      (n : ℕ) (now first : Time)
      → MadeOf seconds content sch src (new_task seconds n content sch src now first)
  unfolding new_task
  new_task-MadeOf n now first = record {
    same_content = refl;
    same_schedule = refl;
    same_source = refl;
    same_target_type = refl;
    same_target_id = refl;
    same_user_id = refl;
  }

  new_task-id :
      (n : ℕ) (now first : Time) → (new_task seconds n content sch src now first).id ≡ task_id n
  unfolding new_task
  new_task-id n now first = refl

  -- What AddAt has stored under the id that it returns, which is the next one
  pub added-Standing :
      (now : Time) (s : Store) (v : IsSound s) (room : s.next_id < max_int64) (t : Task)
      → (add_at seconds content (some sch) src now s).1 ≡ ok t
      → ((u : Task)
          → Table.get t.id (add_at seconds content (some sch) src now s).0.tasks ≡ some u
          → MadeOf seconds content sch src u)
        × (Table.get t.id (add_at seconds content (some sch) src now s).0.tasks ≡ some t)
        × (t.id ≡ task_id (inc64 s.next_id))
  added-Standing now s v room t got = elim (add_at_lem seconds content sch src now s v.valid room) [
    | inl (never, failed) ↦
        absurd (failed_ok t (sym (ap (λ (r : Store × Result AddError Task). r.1) failed) ∙ got))
    | inr (first, _, (stored, _, _, get)) ↦
        let made = new_task seconds (inc64 s.next_id) content sch src now first in
        let same : made ≡ t = ok_injective made t (sym stored ∙ got) in
        let at_t : Table.get t.id (add_at seconds content (some sch) src now s).0.tasks ≡ some t =
          subst
            (λ (x : Task).
              Table.get x.id (add_at seconds content (some sch) src now s).0.tasks ≡ some x)
            same (get made.id ∙ rw ((text_eq_iff made.id made.id).1 refl) refl) in
        (
          λ u at.
              subst (MadeOf seconds content sch src) (same ∙ some_injective t u (sym at_t ∙ at))
                (new_task-MadeOf _ now first),
          at_t,
          ap (λ (x : Task). x.id) (sym same) ∙ new_task-id _ now first,
        )
  ]
    where
      failed_ok : (t : Task) → ◌≡◌ {A = Result AddError Task} (err expired) (ok t) → ⊥
      failed_ok t e = ground (arith, e)

      ok_injective : (a b : Task) → ◌≡◌ {A = Result AddError Task} (ok a) (ok b) → a ≡ b
      ok_injective a b e = ground (arith, e)

      some_injective : (a b : Task) → some a ≡ some b → a ≡ b
      some_injective a b e = ground (arith, e)
