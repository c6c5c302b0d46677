-- ===== src/App/Pipeline/Once.antt =====
-- Through every interleaving, a task that does not repeat fires once at most, and a cancelled task no
-- more.
use miss_raspberry_agent.Prelude.{
  length, All, max_int64, ℕ_eq, ℤ_eq, ℕ, suc, ◌+◌, ◌≤◌, ◌<◌, ◌≡◌, refl, sym, ap, ◌∙◌, subst, false,
  none, some, List, [], ◌∷◌, ◌++◌, arith, Text, codes, text_eq_iff, text_eq_inst,
}
use miss_raspberry_agent.Prelude.Table
use miss_raspberry_agent.Prelude.Table.{get-put, get-delete}
use miss_raspberry_agent.Prelude.Table.Entries.{All-get}
use miss_raspberry_agent.Prelude.Ids.{IsIssued}
use miss_raspberry_agent.Scheduler.Store.{Task, Store, new_store, cancel}
use miss_raspberry_agent.Scheduler.Store.Laws.{IssuedEntry, cancel_lem}
use miss_raspberry_agent.Scheduler.Store.Dispatch.Reachable.{
  IsSound, Reachable-IsSound, initial, cancel-IsSound,
}
use miss_raspberry_agent.Scheduler.Store.Dispatch.Ticks.{
  standing, count_sent, count_sent-append, IsSingle, Once,
}
use miss_raspberry_agent.App.Pipeline.{
  Pipeline, new_pipeline, Action, cancels, Outcome, quiet, act, run,
}
use miss_raspberry_agent.App.Pipeline.Runs.{Ensures-found, run_cons}
use miss_raspberry_agent.App.Pipeline.Tasks.{Scheduled, StepOf, act-StepOf, TaskStep-IsSound}
use miss_raspberry_agent.App.Pipeline.Steps.{
  same-Once, TaskStep-next_id, next_id-cancel, TaskStep-Settles,
}

module _ (seconds : ℕ → Text) (id : Text) where
  Once-joined :
      (s s' s'' : Store) (fired later : List Task)
      → Once id s s' fired
      → Once id s' s'' later
      → Once id s s'' (fired ++ later)
  Once-joined s s' s'' fired later a b = record {
    single = b.single;
    bound = omega (arith, a.bound, b.bound, count_sent-append id fired later);
  }

  run-Once :
      (actions : List Action) (p : Pipeline) (o : Outcome)
      → All Scheduled actions
      → IsSound p.tasks
      → p.tasks.next_id + length actions ≤ max_int64
      → IsIssued (codes "task-") p.tasks.next_id id
      → IsSingle id p.tasks
      → run seconds actions p ≡ some o
      → Once id p.tasks o.pipeline.tasks o.fired
  unfolding run
  run-Once [] p o times v room given one ran =
      let same : quiet p ≡ o = ground (arith, ran) in
      subst (λ (out : Outcome). Once id p.tasks out.pipeline.tasks out.fired) same
        (same-Once id p.tasks p.tasks one refl)
  run-Once (a ∷ actions) p o (time, times) v room given one ran =
      let (first, later, acted, went_on, same) = run_cons seconds a actions p o ran in
      let step =
        Ensures-found (StepOf seconds p) (act seconds a p) first acted
          (act-StepOf seconds a p time) in
      let h =
        TaskStep-Settles seconds id p.tasks first.pipeline.tasks first.fired step v (omega arith)
          given one in
      subst (λ (out : Outcome). Once id p.tasks out.pipeline.tasks out.fired) (sym same)
        (Once-joined p.tasks first.pipeline.tasks later.pipeline.tasks first.fired later.fired
          h.once
          (run-Once actions first.pipeline later times h.sound (omega (arith, h.by_one))
            (record {
              call = given.call;
              named = given.named;
              in_range = omega (arith, given.in_range, h.grows);
            })
            h.once.single went_on))

standing-le : (id : Text) (s : Store) → standing id s ≤ 1
standing-le id s = ground arith

module _ (seconds : ℕ → Text) where
  -- What a run leaves of a sound store: a sound store, and a counter that counts its actions at most.
  pub run-IsSound :
      (actions : List Action) (p : Pipeline) (o : Outcome)
      → All Scheduled actions
      → IsSound p.tasks
      → p.tasks.next_id + length actions ≤ max_int64
      → run seconds actions p ≡ some o
      → IsSound o.pipeline.tasks × (o.pipeline.tasks.next_id ≤ p.tasks.next_id + length actions)
  unfolding run
  run-IsSound [] p o times v room ran =
      let same : quiet p ≡ o = ground (arith, ran) in
      subst
        (λ (out : Outcome).
          IsSound out.pipeline.tasks × (out.pipeline.tasks.next_id ≤ p.tasks.next_id + 0))
        same (v, omega arith)
  run-IsSound (a ∷ actions) p o (time, times) v room ran =
      let (first, later, acted, went_on, same) = run_cons seconds a actions p o ran in
      let step =
        Ensures-found (StepOf seconds p) (act seconds a p) first acted
          (act-StepOf seconds a p time) in
      let sound =
        TaskStep-IsSound seconds p.tasks first.pipeline.tasks first.fired step v (omega arith) in
      let counted =
        TaskStep-next_id seconds p.tasks first.pipeline.tasks first.fired step (omega arith) in
      let (sound', counted') =
        run-IsSound actions first.pipeline later times sound (omega (arith, counted.1)) went_on in
      subst
        (λ (out : Outcome).
          IsSound out.pipeline.tasks
          × (out.pipeline.tasks.next_id ≤ p.tasks.next_id + suc (length actions)))
        (sym same) (sound', omega (arith, counted', counted.1))

  module _ (before actions : List Action) (b o : Outcome) (id : Text) (t : Task)
      (times : All Scheduled before) (times' : All Scheduled actions)
      (room : length before + length actions < max_int64)
      (reached : run seconds before new_pipeline ≡ some b)
      (found : Table.get id b.pipeline.tasks.tasks ≡ some t) where
    reached-IsSound : IsSound b.pipeline.tasks × (b.pipeline.tasks.next_id ≤ length before)
    unfolding new_pipeline
    reached-IsSound =
        let (sound, counted) =
          run-IsSound before new_pipeline b times (Reachable-IsSound new_store initial)
            (omega arith) reached in
        (sound, omega (arith, counted))

    given : IsIssued (codes "task-") b.pipeline.tasks.next_id id
    given =
        let v = reached-IsSound.0 in
        All-get (IssuedEntry b.pipeline.tasks.next_id) id t b.pipeline.tasks.tasks v.valid.issued
          found

    -- In whatever order the goroutines come to run, from the start on: a task that stands in the store and
    -- does not repeat is fired once at most, and if it is, it stands there no more. The run has fewer than
    -- 2^63 - 1 steps, and the schedules that are added have minutes of a day in order.
    pub fires_once :
        t.repeat ≡ false
        → run seconds actions b.pipeline ≡ some o
        → count_sent id o.fired + standing id o.pipeline.tasks ≤ 1
    fires_once single ran =
        let (v, counted) = reached-IsSound in
        let one : IsSingle id b.pipeline.tasks = λ u at. ground (arith, found, at, single) in
        let h =
          run-Once seconds id actions b.pipeline o times' v (omega (arith, counted)) given one
            ran in
        omega (arith, h.bound, standing-le id b.pipeline.tasks)

    -- In whatever order the goroutines come to run, from the start on: once a task is cancelled, whether
    -- or not it repeats, it is not fired any more. The run has fewer than 2^63 - 1 steps, and the schedules
    -- that are added have minutes of a day in order.
    pub run_cancelled :
        run seconds (cancels id ∷ actions) b.pipeline ≡ some o → count_sent id o.fired ≡ 0
    unfolding act
    run_cancelled ran =
        let (v, counted) = reached-IsSound in
        let (first, later, acted, went_on, same) =
          run_cons seconds (cancels id) actions b.pipeline o ran in
        let s = (cancel id b.pipeline.tasks).0 in
        let p : Pipeline = record b.pipeline { tasks = s } in
        let gone : Table.get id s.tasks ≡ none =
          (cancel_lem id b.pipeline.tasks v.valid).1 id ∙ rw ((text_eq_iff id id).1 refl) refl in
        let stopped : first ≡ quiet p = ground (arith, acted) in
        let one : IsSingle id s = λ u at. absurd (ground (arith, gone, at)) in
        let kept = next_id-cancel id b.pipeline.tasks in
        let h =
          run-Once seconds id actions p later times' (cancel-IsSound id b.pipeline.tasks v)
            (omega (arith, counted, kept))
            (subst (λ n. IsIssued (codes "task-") n id) (sym kept) given) one
            (subst (λ (out : Outcome). run seconds actions out.pipeline ≡ some later) stopped
              went_on) in
        omega (
          arith,
          h.bound,
          gone_standing gone,
          ap (λ (out : Outcome). count_sent id out.fired) same,
          ap (λ (out : Outcome). count_sent id out.fired) stopped,
          count_sent-append id first.fired later.fired,
        )
      where
        gone_standing :
            Table.get id (cancel id b.pipeline.tasks).0.tasks ≡ none
            → standing id (cancel id b.pipeline.tasks).0 ≡ 0
        gone_standing gone = rw gone refl
