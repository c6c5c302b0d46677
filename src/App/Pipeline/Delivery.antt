-- ===== src/App/Pipeline/Delivery.antt =====
-- What a tick comes to, when nothing disturbs the scheduler and the forwarding.
use miss_raspberry_agent.Prelude.{
  length, All, ℤ, max_int64, ℕ_eq, ℤ_eq, ℕ, ◌+◌, ◌≤◌, ◌≡◌, refl, ap, ◌↔◌, true, false, some, List,
  [], ◌++◌, arith, Text, text_eq_inst,
}
use mathlib.Core.List.{Mem}
use miss_raspberry_agent.Prelude.Table
use miss_raspberry_agent.Prelude.Sorting.{IsSorted}
use miss_raspberry_agent.Todo
use miss_raspberry_agent.Todo.Laws.{IsValid}
use miss_raspberry_agent.Scheduler.Calendar.{Time}
use miss_raspberry_agent.Scheduler.Store.{Task, due, is_due, runs_before, dispatch}
use miss_raspberry_agent.Scheduler.Store.Dispatch.Selection.{mem-due, due-IsSorted}
use miss_raspberry_agent.Scheduler.Store.Dispatch.Settled.{
  settle, sent-dispatch, dispatch_lem, dispatch-not_due,
}
use miss_raspberry_agent.Scheduler.Store.Dispatch.Reachable.{IsSound}
use miss_raspberry_agent.Agent.Loop.Forward.{Gained, forward_scheduled_fires_lem, forward-Gained}
use miss_raspberry_agent.App.Pipeline.{
  Pipeline, waiting, Action, Outcome, joined, fires_capacity, run,
}
use miss_raspberry_agent.App.Pipeline.Runs.{run-append}
use miss_raspberry_agent.App.Pipeline.Atomic.{after_dispatch, dispatch_runs}
use miss_raspberry_agent.App.Pipeline.Settling.{emptied, empties}

-- All tasks that are due at the moment, and no others, are forwarded in the order of their times and are in the
-- queue; none is due any more.
pub record Delivers (now : Time) (p : Pipeline) (o : Outcome) : Type 0 where
  pub waits : o.pipeline.phase ≡ waiting
  pub empty : o.pipeline.fires ≡ []
  pub all_due :
      (t : Task)
      → Mem t o.forwarded ↔ ((Table.get t.id p.tasks.tasks ≡ some t) × (is_due now t ≡ true))
  pub sorted : IsSorted runs_before o.forwarded
  pub gained : All (Gained p.queue o.pipeline.queue) o.forwarded
  pub count : Todo.len o.pipeline.queue ≡ Todo.len p.queue + length o.forwarded
  pub tasks :
      (id : Text) → Table.get id o.pipeline.tasks.tasks ≡ settle now (Table.get id p.tasks.tasks)
  pub none_due : All (λ entry. is_due now entry.1 ≡ false) o.pipeline.tasks.tasks

module _ (seconds : ℕ → Text) (now : Time) (stamp : ℤ) (p : Pipeline) (v : IsSound p.tasks)
    (valid : IsValid p.queue) (free : length (due now p.tasks) ≤ fires_capacity)
    (room : p.queue.next_id + length (due now p.tasks) ≤ max_int64) where
  abbrev sent : Outcome
  sent = after_dispatch (dispatch fires_capacity now p.tasks) p

  delivered : p.fires ≡ [] → Delivers now p (joined sent (emptied seconds stamp sent.pipeline))
  delivered empty =
      let (_, _, _, _, tasks) = dispatch_lem fires_capacity now p.tasks v.valid free in
      let same : sent.pipeline.fires ≡ due now p.tasks =
        rw empty (sent-dispatch fires_capacity now p.tasks v.valid free) in
      let (_, count) = forward_scheduled_fires_lem stamp (due now p.tasks) p.queue valid room in
      record {
        waits = refl;
        empty = refl;
        all_due = λ t. rw same (mem-due now p.tasks v.valid t);
        sorted = rw same (due-IsSorted now p.tasks);
        gained = rw same (forward-Gained stamp (due now p.tasks) p.queue valid room);
        count = rw same count;
        tasks = tasks;
        none_due = dispatch-not_due fires_capacity now p.tasks v.valid free v.planned;
      }

  -- When a tick comes to a scheduler that waits, with an empty channel, over a sound task store and a valid
  -- queue: the tick, the turns of dispatch, its sends and the forwarding can come so that every task that is due,
  -- and no other, is forwarded, in the order of their times, and the queue has grown by just these items, each
  -- under an id that was free, with the task's schedule, content, source and target. Then the scheduler waits
  -- again and the channel is empty; each due task stands at its next firing or is gone, every other is as it
  -- was, and none is due. The channel and the queue's counter have room for what is due.
  pub due_delivered :
      p.phase ≡ waiting
      → p.fires ≡ []
      → (actions : List Action) × (o : Outcome) × (run seconds actions p ≡ some o)
        × Delivers now p o
  due_delivered waits empty =
      let (actions, ran) =
        dispatch_runs seconds now p fires_capacity waits free (omega (arith, ap length empty)) in
      let (more, ran') = empties seconds stamp sent.pipeline in
      (
        actions ++ more,
        joined sent (emptied seconds stamp sent.pipeline),
        run-append seconds actions more p sent (emptied seconds stamp sent.pipeline) ran ran',
        delivered empty,
      )
