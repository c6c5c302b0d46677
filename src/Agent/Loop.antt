-- ===== src/Agent/Loop.antt =====
-- runOnce, drainTodoList, Run and the forwarding of fired tasks, of internal/agent/main/agent.go.
pub mod Drain
pub mod Failing
pub mod Forward
use miss_raspberry_agent.Prelude.{
  ltb, leb, if◌then◌else◌, ℤ, pos, ◌==ℤ◌, ℕ, zero, suc, ◌+◌, Bool, not, ◌&&◌, Option, none, some,
  List, [], ◌∷◌, ◌++◌, Text, codes,
}
use miss_raspberry_agent.Todo.{Item}
use miss_raspberry_agent.Todo
use miss_raspberry_agent.Scheduler.Store.{Source, Task}
use miss_raspberry_agent.Agent.History.{
  Role, system, user, assistant, tool, Message, sanitize_history, with_user_message, trim_history,
}
use miss_raspberry_agent.Agent.Prompt.{build_activation_prompt}

abbrev pub max_rewake_attempts : ℕ
max_rewake_attempts = 5

abbrev pub max_error_retries : ℕ
max_error_retries = 5

abbrev pub max_history_messages : ℕ
max_history_messages = 20

-- An event of the runner: its error, and its message output. The role is the event's, not the
-- message's.
pub record Event : Type 0 where
  pub error : Option Text
  pub output : Option (Role × Message)

-- MainAgent, with the part of the world that its runner sees.
pub record Agent (W : Type 0) : Type 0 where
  pub todo : Todo.Store
  pub history : List Message
  pub source : Source
  pub world : W

-- What a run of the model and its tools leaves, and the events that it emits. Whatever else adds to
-- the queue during the run is part of what the run leaves.
pub record Run (W : Type 0) : Type 0 where
  pub todo : Todo.Store
  pub world : W
  pub events : List Event

-- The messages that runOnce collects.
unfoldable pub run_messages : List Event → List Message
run_messages [] = []
run_messages (e ∷ events) =
    let rest = run_messages events in
    elim e.output [
      | none ↦ rest
      | some (role, m) ↦ elim role [ assistant ↦ m ∷ rest | tool ↦ m ∷ rest | _ ↦ rest ]
    ]

-- `lastErr`
unfoldable pub last_error : List Event → Option Text
last_error [] = none
last_error (e ∷ events) =
    let later = last_error events in elim later [ some x ↦ some x | none ↦ e.error ]

-- schema.UserMessage
abbrev pub user_message : Text → Message
user_message content = record { role = user; content = content; tool_calls = []; tool_call_id = [] }

-- How a drain ends: the queue is empty, the rewakes are used up, or the retries are, with the id of the item
-- that is removed for it.
pub data Ending : Type 0 where
  cleared stalled : Ending
  failed : Option Text → Ending

-- A drain that has ended, with the number of its rounds.
pub record Drained (W : Type 0) : Type 0 where
  pub agent : Agent W
  pub ending : Ending
  pub rounds : ℕ

-- The state of Run's loop.
pub record Polled (W : Type 0) : Type 0 where
  pub agent : Agent W
  pub stalled_version : ℤ

module _ {W : Type 0} (local_time : ℤ → Text) (runner : W → Todo.Store → List Message → Run W) where
  -- The prompt of a round.
  unfoldable pub activation : Agent W → Message
  activation a = user_message (build_activation_prompt local_time (Todo.list a.todo))

  -- The history that a round sends.
  unfoldable pub sent_history : Agent W → List Message
  unfolding activation
  sent_history a = with_user_message (sanitize_history a.history) (activation a)

  -- runOnce, on the prompt that drainTodoList gives it
  unfoldable pub run_once : Agent W → Agent W × Option Text
  unfolding activation sent_history
  run_once a =
      let run = runner a.world a.todo (sent_history a) in
      let a' = record a { todo = run.todo; world = run.world } in
      elim (last_error run.events) [
        | some e ↦ (a', some e)
        | none ↦
            let messages = with_user_message a.history (activation a) ++ run_messages run.events in
            (
              record a' { history = trim_history (sanitize_history messages) max_history_messages },
              none,
            )
      ]

  -- What drainTodoList does once it gives up on errors: `items[0]` is removed.
  unfoldable pub give_up : Agent W → Agent W × Option Text
  give_up a = elim (Todo.list a.todo) [
    | [] ↦ (a, none)
    | item ∷ _ ↦ (record a { todo = (Todo.complete item.id a.todo).0 }, some item.id)
  ]

  -- The loop of drainTodoList, from the given counters on. It returns none when the fuel runs out.
  unfoldable pub drain_from : ℕ → ℕ → ℕ → ℕ → Agent W → Option (Drained W)
  drain_from zero rounds rewakes errors a = none
  drain_from (suc fuel) rounds rewakes errors a =
      let a' = (run_once a).0 in
      let retry = drain_from fuel (rounds + 1) rewakes (errors + 1) a' in
      let rewake = drain_from fuel (rounds + 1) (rewakes + 1) 0 a' in
      elim (run_once a).1 [
        | some e ↦
            if leb max_error_retries (errors + 1)
            then some (record {
              agent = (give_up a').0;
              ending = failed (give_up a').1;
              rounds = rounds + 1;
            })
            else retry
        | none ↦
            if Todo.is_empty_store a'.todo
            then some (record { agent = a'; ending = cleared; rounds = rounds + 1 })
            else if ltb max_rewake_attempts (rewakes + 1)
            then some (record { agent = a'; ending = stalled; rounds = rounds + 1 })
            else rewake
      ]

  -- drainTodoList
  unfoldable pub drain_todo_list : Agent W → Option (Drained W)
  drain_todo_list a = drain_from 30 0 0 0 a

  -- setCurrentSourceFromQueue
  unfoldable pub set_current_source_from_queue : Agent W → Agent W
  set_current_source_from_queue a = elim (last_of (Todo.list a.todo)) [
    | none ↦ a
    | some item ↦ record a {
      source = record {
        description = item.source;
        target_type = item.target_type;
        target_id = item.target_id;
        user_id = item.user_id;
      };
    }
  ]
    where
      last_of : List Item → Option Item
      last_of [] = none
      last_of (x ∷ xs) = elim (last_of xs) [ none ↦ some x | some y ↦ some y ]

  -- The condition under which Run drains the queue.
  unfoldable pub wakes : Polled W → Bool
  wakes p =
      not (Todo.is_empty_store p.agent.todo)
      && not (Todo.version p.agent.todo ==ℤ p.stalled_version)

  -- One turn of the loop of Run.
  unfoldable pub poll : Polled W → Option (Polled W)
  poll p =
      if wakes p
      then elim (drain_todo_list (set_current_source_from_queue p.agent)) [
        | none ↦ none
        | some d ↦ some (record {
          agent = d.agent;
          stalled_version =
              if Todo.is_empty_store d.agent.todo
              then p.stalled_version
              else Todo.version d.agent.todo;
        })
      ]
      else some p

-- The item that enqueueScheduledTask adds.
unfoldable pub scheduled_item : Task → Item
scheduled_item task = record {
  id = [];
  content = codes "[定时任务 " ++ task.schedule ++ codes "] " ++ task.content;
  context = [];
  source = task.source;
  target_type = task.target_type;
  target_id = task.target_id;
  user_id = task.user_id;
  created_at = pos 0;
}

-- enqueueScheduledTask
unfoldable pub enqueue_scheduled_task : ℤ → Task → Todo.Store → Todo.Store
unfolding scheduled_item
enqueue_scheduled_task now task s = (Todo.add now (scheduled_item task) s).0

-- forwardScheduledFires, over the events it receives
unfoldable pub forward_scheduled_fires : ℤ → List Task → Todo.Store → Todo.Store
unfolding enqueue_scheduled_task
forward_scheduled_fires now [] s = s
forward_scheduled_fires now (task ∷ tasks) s =
    forward_scheduled_fires now tasks (enqueue_scheduled_task now task s)
