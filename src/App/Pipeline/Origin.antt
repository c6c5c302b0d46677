-- ===== src/App/Pipeline/Origin.antt =====
-- Through every interleaving, what an event of a task puts into the queue is as the task was made.
use miss_raspberry_agent.Prelude.{
  length, All, All-append, ℤ, max_int64, inc64, ℕ_eq, ℤ_eq, ℕ, ◌+◌, ◌≤◌, ◌<◌, ◌≡◌, refl, sym, ap,
  ◌∙◌, subst, none, some, List, [], ◌∷◌, ◌++◌, arith, Text, codes, text_eq_inst, ok,
}
use miss_raspberry_agent.Prelude.Table
use miss_raspberry_agent.Prelude.Ids.{numbered, IsIssued, not-IsIssued, inc64-suc}
use miss_raspberry_agent.Todo
use miss_raspberry_agent.Todo.Laws.{IsValid, IsValid-new_store}
use miss_raspberry_agent.Prelude.Table.Entries.{All-get}
use miss_raspberry_agent.Scheduler.Calendar.{Time}
use miss_raspberry_agent.Scheduler.Schedule.{Schedule}
use miss_raspberry_agent.Scheduler.Schedule.Firing.{IsDayTimes}
use miss_raspberry_agent.Scheduler.Builder.Describe.{describe}
use miss_raspberry_agent.Scheduler.Store.{Task, Source, new_store, task_id, add_at}
use miss_raspberry_agent.Scheduler.Store.Laws.{IssuedEntry}
use miss_raspberry_agent.Scheduler.Store.Dispatch.Reachable.{
  IsSound, add_at-IsSound, Reachable-IsSound, initial,
}
use miss_raspberry_agent.Agent.Loop.Forward.{Gained, enqueue-Gained}
use miss_raspberry_agent.App.Pipeline.Fifo.{held, given_up, unforwarded, run-InOrder}
use miss_raspberry_agent.App.Pipeline.Queueing.{run-queue, IssuedIds, run-IssuedIds}
use miss_raspberry_agent.App.Pipeline.{
  Pipeline, new_pipeline, Action, schedules, forwards, Outcome, quiet, joined, act, run,
}
use miss_raspberry_agent.App.Pipeline.Runs.{run_cons}
use miss_raspberry_agent.App.Pipeline.Tasks.{Scheduled, gains}
use miss_raspberry_agent.App.Pipeline.Steps.{TaskStep-next_id}
use miss_raspberry_agent.App.Pipeline.Once.{run-IsSound}
use miss_raspberry_agent.App.Pipeline.Keeping.{run-OfId}
use miss_raspberry_agent.App.Pipeline.Made.{
  MadeOf, All-suffix, forward-cases, advance-MadeOf, added-Standing,
}

module _ (seconds : ℕ → Text) (content : Text) (sch : Schedule) (src : Source) where
  from_start :
      (before : List Action) (b : Outcome)
      → All Scheduled before
      → length before ≤ max_int64
      → run seconds before new_pipeline ≡ some b
      → IsSound b.pipeline.tasks
        × (b.pipeline.tasks.next_id ≤ length before)
        × IsValid b.pipeline.queue
        × (b.pipeline.queue.next_id ≤ length before)
        × IssuedIds b.pipeline.tasks.next_id (unforwarded b.pipeline)
  unfolding new_pipeline
  from_start before b times room reached =
      let started = Reachable-IsSound new_store initial in
      let (sound, counted) =
        run-IsSound seconds before new_pipeline b times started (omega arith) reached in
      let (valid, counted') =
        run-queue seconds before new_pipeline b IsValid-new_store (omega arith) reached in
      let (_, issued) =
        run-IssuedIds seconds before new_pipeline b times started (omega arith) reached in
      let kept = run-InOrder seconds before new_pipeline b reached in
      (
        sound,
        omega (arith, counted),
        valid,
        omega (arith, counted'),
        All-suffix (λ (e : Task). IsIssued (codes "task-") b.pipeline.tasks.next_id e.id)
            b.forwarded (unforwarded b.pipeline)
            (subst (IssuedIds b.pipeline.tasks.next_id) kept.order issued),
      )

  -- The queue has gained an item, under an id that was free, of this content and to be answered there.
  pub record Became (q q' : Todo.Store) : Type 0 where
    pub id : Text
    pub item : Todo.Item
    pub free : Table.get id q.items ≡ none
    pub stored : Table.get id q'.items ≡ some item
    pub same_content :
        item.content ≡ codes "[定时任务 " ++ describe seconds sch ++ codes "] " ++ content
    pub same_source : item.source ≡ src.description
    pub same_target_type : item.target_type ≡ src.target_type
    pub same_target_id : item.target_id ≡ src.target_id
    pub same_user_id : item.user_id ≡ src.user_id

  Gained-Became :
      (q q' : Todo.Store) (e : Task)
      → MadeOf seconds content sch src e
      → Gained q q' e
      → Became q q'
  Gained-Became q q' e m g = record {
    id = g.id;
    item = g.item;
    free = g.free;
    stored = g.stored;
    same_content = g.of_task.content ∙ rw (m.same_content, m.same_schedule) refl;
    same_source = g.of_task.source ∙ m.same_source;
    same_target_type = g.of_task.target_type ∙ m.same_target_type;
    same_target_id = g.of_task.target_id ∙ m.same_target_id;
    same_user_id = g.of_task.user_id ∙ m.same_user_id;
  }

  abbrev MadeOfId : Text → List Task → Type 0
  MadeOfId id = All (λ (e : Task). e.id ≡ id → MadeOf seconds content sch src e)

  -- Ids that were given out before are not the next one.
  IssuedIds-MadeOfId :
      (n : ℕ) (id : Text) (events : List Task)
      → n < max_int64
      → id ≡ task_id (inc64 n)
      → IssuedIds n events
      → MadeOfId id events
  unfolding task_id
  IssuedIds-MadeOfId n id [] room next_one h = tt
  IssuedIds-MadeOfId n id (e ∷ events) room next_one h = (
    λ here. absurd (
        not-IsIssued (codes "task-") n room (
          subst (IsIssued (codes "task-") n)
            (here ∙ next_one ∙ ap (numbered (codes "task-")) (inc64-suc n room)) h.0)),
    IssuedIds-MadeOfId n id events room next_one h.1,
  )

  module _ (before actions : List Action) (b o : Outcome) (now : Time) (t : Task)
      (times : All Scheduled before) (times' : All Scheduled actions)
      (day_times : IsDayTimes sch.times) (room : length before + length actions + 1 < max_int64)
      (reached : run seconds before new_pipeline ≡ some b)
      (got : (add_at seconds content (some sch) src now b.pipeline.tasks).1 ≡ ok t)
      (ran : run seconds (schedules content sch src now ∷ actions) b.pipeline ≡ some o) where
    fired-MadeOfId : MadeOfId t.id o.fired
    unfolding act
    fired-MadeOfId =
        let (v, counted, _, _, _) = from_start before b times (omega arith) reached in
        let s = b.pipeline.tasks in
        let s' = (add_at seconds content (some sch) src now s).0 in
        let small : s.next_id < max_int64 = omega (arith, counted) in
        let p : Pipeline = record b.pipeline { tasks = s' } in
        let (first, later, acted, went_on, same) =
          run_cons seconds (schedules content sch src now) actions b.pipeline o ran in
        let done : first ≡ quiet p = ground (arith, acted) in
        let (holds, found, _) = added-Standing seconds content sch src now s v small t got in
        let v' = add_at-IsSound seconds content sch src now s day_times small v in
        let grown =
          TaskStep-next_id seconds s s' [] (gains content sch src now day_times refl refl) small in
        let events =
          run-OfId seconds t.id (MadeOf seconds content sch src)
            (advance-MadeOf seconds content sch src) actions p later times' v'
            (omega (arith, counted, grown.1))
            (All-get (IssuedEntry s'.next_id) t.id t s'.tasks v'.valid.issued found) holds
            (subst (λ (out : Outcome). run seconds actions out.pipeline ≡ some later) done
              went_on) in
        subst (λ (out : Outcome). MadeOfId t.id out.fired)
          (sym (same ∙ ap (λ (out : Outcome). joined out later) done)) events

    -- What is still on its way
    unforwarded-MadeOfId : MadeOfId t.id (unforwarded o.pipeline)
    unforwarded-MadeOfId =
        let (v, counted, _, _, issued) = from_start before b times (omega arith) reached in
        let small : b.pipeline.tasks.next_id < max_int64 = omega (arith, counted) in
        let (_, _, named) =
          added-Standing seconds content sch src now b.pipeline.tasks v small t got in
        let kept = run-InOrder seconds (schedules content sch src now ∷ actions) b.pipeline o ran in
        All-suffix (λ (e : Task). e.id ≡ t.id → MadeOf seconds content sch src e) o.forwarded
          (unforwarded o.pipeline)
          (subst (MadeOfId t.id) kept.order (
            All-append (λ (e : Task). e.id ≡ t.id → MadeOf seconds content sch src e)
              (unforwarded b.pipeline) o.fired
              (IssuedIds-MadeOfId b.pipeline.tasks.next_id t.id (unforwarded b.pipeline) small named
                issued)
              fired-MadeOfId))

    queue-IsValid : IsValid o.pipeline.queue × (o.pipeline.queue.next_id < max_int64)
    queue-IsValid =
        let (_, _, valid, counted, _) = from_start before b times (omega arith) reached in
        let (valid', counted') =
          run-queue seconds (schedules content sch src now ∷ actions) b.pipeline o valid
            (omega (arith, counted)) ran in
        (valid', omega (arith, counted, counted'))

    -- In whatever order the goroutines come to run, from the start on: after AddAt has made a task, each time
    -- that an event of it is forwarded, the queue gains an item, under an id that was free, with the
    -- schedule and the content that the task was made of, to be answered where it was made. The run has 2^63 - 1
    -- steps at most, this last one included, and the schedules that are added have minutes of a day in
    -- order.
    pub fires_as_added :
        (stamp : ℤ) (last : Outcome)
        → act seconds (forwards stamp) o.pipeline ≡ some last
        → (e : Task) × (last.forwarded ≡ e ∷ [])
          × (e.id ≡ t.id → Became o.pipeline.queue last.pipeline.queue)
    unfolding act
    fires_as_added stamp last acted =
        let (e, rest, head, forwarded, queue) =
          forward-cases o.pipeline.fires stamp o.pipeline last refl acted in
        let (valid, small) = queue-IsValid in
        let events : MadeOfId t.id
            (((e ∷ rest) ++ held o.pipeline.phase) ++ given_up o.pipeline.phase) =
          subst
            (λ fires. MadeOfId t.id ((fires ++ held o.pipeline.phase) ++ given_up o.pipeline.phase))
            head unforwarded-MadeOfId in
        (
          e,
          forwarded,
          λ here. Gained-Became o.pipeline.queue last.pipeline.queue e (events.0 here) (
              subst (λ q. Gained o.pipeline.queue q e) (sym queue)
                (enqueue-Gained stamp e o.pipeline.queue valid small)),
        )
