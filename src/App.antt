-- ===== src/App.antt =====
-- The parts that Run of internal/app/app.go and NewMainAgent of internal/agent/main/agent.go wire
-- together: one todo queue that the HTTP API, the QQ client, the forwarding of fired tasks and the
-- agent's tools share, the tag sets, and the scheduled tasks.
pub mod Lifecycle
pub mod Pipeline
pub mod Adding
pub mod Queue
pub mod Reachable
mod Tests
use miss_raspberry_agent.Prelude.{ℤ, ℕ, Option, none, some, List, [], Text}
use miss_raspberry_agent.Todo
use miss_raspberry_agent.Todo.Tool.{TodoListInput, run_todo_list}
use miss_raspberry_agent.Scheduler.Calendar.{Time}
use miss_raspberry_agent.Scheduler.Schedule.{Schedule}
use miss_raspberry_agent.Scheduler.Store
use miss_raspberry_agent.Scheduler.Store.{Source, add_at, cancel, dispatch}
use miss_raspberry_agent.Agent.Loop.{forward_scheduled_fires}
use miss_raspberry_agent.Napcat.Incoming.{Segment, Message, handle_incoming_message}
use miss_raspberry_agent.Http.{Api, HttpRequest, World, handle}

-- The shared stores: the queue and the tag sets are what the handlers of the HTTP API work on.
pub record System : Type 0 where
  pub world : World
  pub tasks : Store.Store

-- The stores that the parts are built with
unfoldable pub new_system : System
new_system = record {
  world = record { queue = some Todo.new_store; sets = some [] };
  tasks = Store.new_store;
}

-- What a part does to the shared stores, one after the other, with the time it reads: a request is
-- handled; a QQ message comes in; the scheduler dispatches, with the number of sends that go through,
-- and what it sent is forwarded before anything else happens; a tool of the agent adds or cancels a
-- scheduled task; the `todo_list` tool of the agent is called with an input; the agent's loop completes
-- an item.
pub data Turn (N : Type 0) : Type 0 where
  requests : ℤ → HttpRequest → Turn N
  comes_in : ℤ → Message N → Turn N
  ticks : ℕ → Time → ℤ → Turn N
  schedules : Text → Schedule → Source → Time → Turn N
  cancels_task : Text → Turn N
  calls_todo_list : ℤ → TodoListInput → Turn N
  completes : Text → Turn N

unfoldable pub complete_item : Text → Option Todo.Store → Option Todo.Store
complete_item id none = none
complete_item id (some s) = some (Todo.complete id s).0

-- A call of the `todo_list` tool, on the shared queue
unfoldable pub call_todo_list : ℤ → TodoListInput → Option Todo.Store → Option Todo.Store
call_todo_list now input none = none
call_todo_list now input (some s) = some (run_todo_list now input s).0

unfoldable pub forward_all : ℤ → List Store.Task → Option Todo.Store → Option Todo.Store
forward_all now tasks none = none
forward_all now tasks (some s) = some (forward_scheduled_fires now tasks s)

module _ {N : Type 0} (api : Api) (seconds : ℕ → Text) (parse_message : N → List Segment) where
  unfoldable pub take_turn : Turn N → System → System
  unfolding complete_item call_todo_list forward_all
  take_turn (requests now req) sys = record sys { world = (handle api now req sys.world).0 }
  take_turn (comes_in now msg) sys = record sys {
    world = record sys.world {
      queue = (handle_incoming_message parse_message now msg sys.world.queue).0;
    };
  }
  take_turn (ticks room moment now) sys =
      let d = dispatch room moment sys.tasks in
      record {
        world = record sys.world { queue = forward_all now d.sent sys.world.queue };
        tasks = d.store;
      }
  take_turn (schedules content sch src now) sys = record sys {
    tasks = (add_at seconds content (some sch) src now sys.tasks).0;
  }
  take_turn (cancels_task id) sys = record sys { tasks = (cancel id sys.tasks).0 }
  take_turn (calls_todo_list now input) sys = record sys {
    world = record sys.world { queue = call_todo_list now input sys.world.queue };
  }
  take_turn (completes id) sys = record sys {
    world = record sys.world { queue = complete_item id sys.world.queue };
  }
