-- ===== src/App/Pipeline/Occurrences.antt =====
-- Through every interleaving, no occurrence of a task is fired twice, tasks that repeat included.
use miss_raspberry_agent.Prelude.{
  if◌then◌else◌, Bool-cases, length, All, ℤ, max_int64, ℕ, ◌+◌, ◌≤◌, ◌<◌, ◌≡◌, refl, sym, subst,
  ◌⊎◌, inl, inr, Option, none, some, List, [], ◌∷◌, ◌++◌, arith, Text, codes, text_eq,
}
use miss_raspberry_agent.Prelude.Ids.{IsIssued}
use miss_raspberry_agent.Scheduler.Store.{Task, new_store}
use miss_raspberry_agent.Scheduler.Store.Dispatch.Reachable.{IsSound, Reachable-IsSound, initial}
use miss_raspberry_agent.App.Pipeline.{Pipeline, new_pipeline, Action, Outcome, quiet, act, run}
use miss_raspberry_agent.App.Pipeline.Runs.{Ensures-found, run_cons}
use miss_raspberry_agent.App.Pipeline.Fifo.{unforwarded, run-InOrder}
use miss_raspberry_agent.App.Pipeline.Tasks.{Scheduled, StepOf, act-StepOf, TaskStep-IsSound}
use miss_raspberry_agent.App.Pipeline.Steps.{TaskStep-next_id}
use miss_raspberry_agent.App.Pipeline.Rising.{Above, Rises, Bounds, TaskStep-Rising}

-- What rises with more behind it rises.
Rises-front :
    (id : Text) (last : Option ℤ) (ts rest : List Task)
    → Rises id last (ts ++ rest)
    → Rises id last ts
Rises-front id last [] rest h = tt
Rises-front id last (t ∷ ts) rest h = elim (Bool-cases (text_eq t.id id)) [
  | inl this ↦
      let (above, later) : Above last t.next_run_at × Rises id (some t.next_run_at) (ts ++ rest) =
        subst
          (λ b.
            if b
            then Above last t.next_run_at × Rises id (some t.next_run_at) (ts ++ rest)
            else Rises id last (ts ++ rest))
          this h in
      rw this (above, Rises-front id (some t.next_run_at) ts rest later)
  | inr other ↦
      let later : Rises id last (ts ++ rest) =
        subst
          (λ b.
            if b
            then Above last t.next_run_at × Rises id (some t.next_run_at) (ts ++ rest)
            else Rises id last (ts ++ rest))
          other h in
      rw other (Rises-front id last ts rest later)
]

module _ (seconds : ℕ → Text) (id : Text) where
  run-Rises :
      (actions : List Action) (p : Pipeline) (o : Outcome) (last : Option ℤ)
      → All Scheduled actions
      → IsSound p.tasks
      → p.tasks.next_id + length actions ≤ max_int64
      → IsIssued (codes "task-") p.tasks.next_id id ⊎ (last ≡ none)
      → Bounds id last p.tasks
      → run seconds actions p ≡ some o
      → Rises id last o.fired
  unfolding run
  run-Rises [] p o last times v room known bounds ran =
      let same : quiet p ≡ o = ground (arith, ran) in
      subst (λ (out : Outcome). Rises id last out.fired) same tt
  run-Rises (a ∷ actions) p o last (time, times) v room known bounds ran =
      let (first, later, acted, went_on, same) = run_cons seconds a actions p o ran in
      let s' = first.pipeline.tasks in
      let step =
        Ensures-found (StepOf seconds p) (act seconds a p) first acted
          (act-StepOf seconds a p time) in
      let small : p.tasks.next_id < max_int64 = omega arith in
      let counted = TaskStep-next_id seconds p.tasks s' first.fired step small in
      let h = TaskStep-Rising id last p.tasks v known bounds seconds s' first.fired step small in
      subst (λ (out : Outcome). Rises id last out.fired) (sym same)
        (h.extends later.fired (
          run-Rises actions first.pipeline later h.next_last times
            (TaskStep-IsSound seconds p.tasks s' first.fired step v small)
            (omega (arith, counted.1)) h.known h.bounds went_on))

  -- In whatever order the goroutines come to run, from the start on: the events that are fired for an id,
  -- and those that are forwarded to the queue, are for times each later than the one before, so that no
  -- occurrence of a task is fired or forwarded twice. The run has fewer than 2^63 steps, and the schedules
  -- that are added have minutes of a day in order.
  pub run_occurrences :
      (actions : List Action) (o : Outcome)
      → All Scheduled actions
      → length actions ≤ max_int64
      → run seconds actions new_pipeline ≡ some o
      → Rises id none o.fired × Rises id none o.forwarded
  unfolding new_pipeline
  run_occurrences actions o times room ran =
      let rises =
        run-Rises actions new_pipeline o none times (Reachable-IsSound new_store initial)
          (omega arith) (inr refl) (λ t at. tt) ran in
      let kept = run-InOrder seconds actions new_pipeline o ran in
      (
        rises,
        Rises-front id none o.forwarded (unforwarded o.pipeline)
            (subst (Rises id none) kept.order rises),
      )
