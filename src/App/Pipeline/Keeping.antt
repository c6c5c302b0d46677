-- ===== src/App/Pipeline/Keeping.antt =====
-- What advancing a task keeps holds of all its events, through every interleaving.
use miss_raspberry_agent.Prelude.{
  Bool-cases, length, All, All-append, max_int64, ℕ_eq, ℤ_eq, ℕ, ◌+◌, ◌≤◌, ◌<◌, ◌≡◌, refl, sym, ◌∙◌,
  subst, inl, inr, some, List, [], ◌∷◌, arith, Text, codes, text_eq, text_eq_iff, text_eq_inst,
}
use miss_raspberry_agent.Prelude.Table
use miss_raspberry_agent.Prelude.Ids.{IsIssued}
use miss_raspberry_agent.Scheduler.Calendar.{Time}
use miss_raspberry_agent.Scheduler.Store.{Task, Store, advance, fire}
use miss_raspberry_agent.Scheduler.Store.Laws.{cancel_lem}
use miss_raspberry_agent.Scheduler.Store.Dispatch.Loop.{Fired}
use miss_raspberry_agent.Scheduler.Store.Dispatch.Reachable.{IsSound}
use miss_raspberry_agent.App.Pipeline.{Pipeline, Action, Outcome, quiet, act, run}
use miss_raspberry_agent.App.Pipeline.Runs.{Ensures-found, run_cons}
use miss_raspberry_agent.App.Pipeline.Tasks.{
  Scheduled, TaskStep, keeps, takes, gains, loses, StepOf, act-StepOf, TaskStep-IsSound,
}
use miss_raspberry_agent.App.Pipeline.Steps.{get-add_at, TaskStep-next_id}
use miss_raspberry_agent.App.Pipeline.Rising.{fire-cases}

-- A property of tasks that advancing keeps, and an id.
module _ (seconds : ℕ → Text) (id : Text) (P : Task → Type 0)
    (stable : (now : Time) (t u : Task) → P t → advance now t ≡ some u → P u) where
  -- The task that stands under the id has the property.
  abbrev pub Standing : Store → Type 0
  Standing s = (t : Task) → Table.get id s.tasks ≡ some t → P t

  -- The events of the id have it.
  abbrev pub OfId : List Task → Type 0
  OfId = All (λ (t : Task). t.id ≡ id → P t)

  Fired-Standing :
      (now : Time) (s s' : Store) (cur : Task)
      → Standing s
      → Table.get cur.id s.tasks ≡ some cur
      → Fired now cur s s'
      → Standing s' × OfId (cur ∷ [])
  Fired-Standing now s s' cur holds stored done = (
    λ t at. elim (Bool-cases (text_eq cur.id id)) [
      | inr other ↦ holds t (sym (done.tasks id ∙ rw other refl) ∙ at)
      | inl this ↦
          stable now cur t (of_id ((text_eq_iff cur.id id).0 this))
            (sym (done.tasks id ∙ rw this refl) ∙ at)
    ],
    (of_id, tt),
  )
    where
      of_id : cur.id ≡ id → P cur
      of_id here = holds cur (subst (λ i. Table.get i s.tasks ≡ some cur) here stored)

  TaskStep-Standing :
      (s s' : Store) (fired : List Task)
      → TaskStep seconds s s' fired
      → IsSound s
      → s.next_id < max_int64
      → IsIssued (codes "task-") s.next_id id
      → Standing s
      → Standing s' × OfId fired
  TaskStep-Standing s s' fired (keeps same none_fired) v room given holds =
      rw (same, none_fired) (holds, tt)
  TaskStep-Standing s s' fired (takes now t same as_fired) v room given holds =
      rw (same, as_fired)
        (elim (fire-cases now t s v) [
          | inl (no_event, kept) ↦ rw (no_event, kept) (holds, tt)
          | inr (cur, event, stored, _, done) ↦
              rw event (Fired-Standing now s (fire now t s).0 cur holds stored done)
        ])
  TaskStep-Standing s s' fired (gains content sch src now times same none_fired) v room given
        holds =
      rw (same, none_fired)
        (λ t at. holds t (sym (get-add_at seconds content sch src now s room id given) ∙ at), tt)
  TaskStep-Standing s s' fired (loses j same none_fired) v room given holds =
      rw (same, none_fired)
        (λ t at. holds t (ground (arith, (cancel_lem j s v.valid).1 id, at)), tt)

  pub run-OfId :
      (actions : List Action) (p : Pipeline) (o : Outcome)
      → All Scheduled actions
      → IsSound p.tasks
      → p.tasks.next_id + length actions ≤ max_int64
      → IsIssued (codes "task-") p.tasks.next_id id
      → Standing p.tasks
      → run seconds actions p ≡ some o
      → OfId o.fired
  unfolding run
  run-OfId [] p o times v room given holds ran =
      let same : quiet p ≡ o = ground (arith, ran) in
      subst (λ (out : Outcome). OfId out.fired) same tt
  run-OfId (a ∷ actions) p o (time, times) v room given holds ran =
      let (first, later, acted, went_on, same) = run_cons seconds a actions p o ran in
      let s' = first.pipeline.tasks in
      let step =
        Ensures-found (StepOf seconds p) (act seconds a p) first acted
          (act-StepOf seconds a p time) in
      let small : p.tasks.next_id < max_int64 = omega arith in
      let counted = TaskStep-next_id seconds p.tasks s' first.fired step small in
      let (holds', here) = TaskStep-Standing p.tasks s' first.fired step v small given holds in
      let rest =
        run-OfId actions first.pipeline later times
          (TaskStep-IsSound seconds p.tasks s' first.fired step v small) (omega (arith, counted.1))
          (record {
            call = given.call;
            named = given.named;
            in_range = omega (arith, given.in_range, counted.0);
          })
          holds' went_on in
      subst (λ (out : Outcome). OfId out.fired) (sym same)
        (All-append (λ (t : Task). t.id ≡ id → P t) first.fired later.fired here rest)
