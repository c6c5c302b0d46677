-- ===== src/App/Pipeline.antt =====
-- The way of a fired task from the scheduler to the todo queue, in the small steps that other goroutines
-- can come between: Run and dispatch of internal/scheduler/store.go, the channel of fired tasks, and
-- forwardScheduledFires of internal/agent/main/agent.go.
pub mod Runs
pub mod Fifo
pub mod Tasks
pub mod Steps
pub mod Once
pub mod Rising
pub mod Occurrences
pub mod Keeping
pub mod Queueing
pub mod Made
pub mod Origin
pub mod Atomic
pub mod Settling
pub mod Delivery
mod Tests
use miss_raspberry_agent.Prelude.{
  ltb, if◌then◌else◌, length, ℤ, ℕ, Option, none, some, List, [], ◌∷◌, ◌++◌, Text,
}
use miss_raspberry_agent.Todo
use miss_raspberry_agent.Todo.{Item}
use miss_raspberry_agent.Scheduler.Calendar.{Time}
use miss_raspberry_agent.Scheduler.Schedule.{Schedule}
use miss_raspberry_agent.Scheduler.Store.{Task, Source, Store, new_store, add_at, cancel, due, fire}
use miss_raspberry_agent.Agent.Loop.{enqueue_scheduled_task}

-- The capacity of the channel
abbrev pub fires_capacity : ℕ
fires_capacity = 256

-- Where the goroutine of Run stands: it waits for a tick; it is in the loop of dispatch, with the tasks
-- that are left of those that were due; it waits in dispatch to send an event; or it has ended, with the
-- event, if any, that it did not send.
pub data Phase : Type 0 where
  waiting : Phase
  looping : Time → List Task → Phase
  sending : Time → Task → List Task → Phase
  ended : Option Task → Phase

-- `fires` is the channel, the oldest event first.
pub record Pipeline : Type 0 where
  pub tasks : Store
  pub phase : Phase
  pub fires : List Task
  pub queue : Todo.Store

-- NewMainAgent and NewScheduler
unfoldable pub new_pipeline : Pipeline
new_pipeline = record { tasks = new_store; phase = waiting; fires = []; queue = Todo.new_store }

-- What one goroutine does without another coming between. The scheduler's: Run receives a tick;
-- dispatch makes one turn of its loop, up to the send; the send goes through; the context is seen to be
-- done. Then: forwardScheduledFires receives an event and adds its item; a tool adds or cancels a scheduled
-- task; an item is added to the queue, or completed.
pub data Action : Type 0 where
  ticks : Time → Action
  turns sends gives_up : Action
  forwards : ℤ → Action
  schedules : Text → Schedule → Source → Time → Action
  cancels : Text → Action
  adds : ℤ → Item → Action
  completes : Text → Action

-- The pipeline after an action or more, the events taken from the task store, and those that were
-- forwarded.
pub record Outcome : Type 0 where
  pub pipeline : Pipeline
  pub fired : List Task
  pub forwarded : List Task

abbrev pub quiet : Pipeline → Outcome
quiet p = record { pipeline = p; fired = []; forwarded = [] }

-- One outcome and then another
abbrev pub joined : Outcome → Outcome → Outcome
joined first later = record {
  pipeline = later.pipeline;
  fired = first.fired ++ later.fired;
  forwarded = first.forwarded ++ later.forwarded;
}

-- Run receives a tick, and dispatch reads what is due.
unfoldable pub tick_at : Phase → Time → Pipeline → Option Outcome
tick_at waiting now p = some (quiet (record p { phase = looping now (due now p.tasks) }))
tick_at _ now p = none

-- What a turn of the loop leads to, by what it fires.
unfoldable pub turned : Time → List Task → Store → Option Task → Pipeline → Outcome
turned now ts s none p = quiet (record p { tasks = s; phase = looping now ts })
turned now ts s (some event) p = record {
  pipeline = record p { tasks = s; phase = sending now event ts };
  fired = event ∷ [];
  forwarded = [];
}

unfoldable pub turn_at : Phase → Pipeline → Option Outcome
unfolding turned
turn_at (looping now []) p = some (quiet (record p { phase = waiting }))
turn_at (looping now (t ∷ ts)) p =
    let (s, event) = fire now t p.tasks in some (turned now ts s event p)
turn_at _ p = none

-- The send, which waits while the channel is full
unfoldable pub send_at : Phase → Pipeline → Option Outcome
send_at (sending now event ts) p =
    if ltb (length p.fires) fires_capacity
    then some (quiet (record p { phase = looping now ts; fires = p.fires ++ event ∷ [] }))
    else none
send_at _ p = none

-- The two places where the scheduler looks whether its context is done
unfoldable pub give_up_at : Phase → Pipeline → Option Outcome
give_up_at waiting p = some (quiet (record p { phase = ended none }))
give_up_at (sending now event ts) p = some (quiet (record p { phase = ended (some event) }))
give_up_at _ p = none

-- forwardScheduledFires, for one event
unfoldable pub forward_from : List Task → ℤ → Pipeline → Option Outcome
forward_from [] now p = none
forward_from (task ∷ fires) now p = some (record {
  pipeline = record p { fires = fires; queue = enqueue_scheduled_task now task p.queue };
  fired = [];
  forwarded = task ∷ [];
})

module _ (seconds : ℕ → Text) where
  -- An action, or none where it has to wait.
  unfoldable pub act : Action → Pipeline → Option Outcome
  unfolding tick_at turn_at send_at give_up_at forward_from
  act (ticks now) p = tick_at p.phase now p
  act turns p = turn_at p.phase p
  act sends p = send_at p.phase p
  act gives_up p = give_up_at p.phase p
  act (forwards now) p = forward_from p.fires now p
  act (schedules content sch src now) p =
      some (quiet (record p { tasks = (add_at seconds content (some sch) src now p.tasks).0 }))
  act (cancels id) p = some (quiet (record p { tasks = (cancel id p.tasks).0 }))
  act (adds now item) p = some (quiet (record p { queue = (Todo.add now item p.queue).0 }))
  act (completes id) p = some (quiet (record p { queue = (Todo.complete id p.queue).0 }))

  -- Actions one after the other, in the order in which the goroutines come to run.
  unfoldable pub run : List Action → Pipeline → Option Outcome
  unfolding act
  run [] p = some (quiet p)
  run (a ∷ actions) p = elim (act a p) [
    | none ↦ none
    | some first ↦ elim (run actions first.pipeline) [
      | none ↦ none
      | some later ↦ some (joined first later)
    ]
  ]
