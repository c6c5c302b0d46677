-- ===== src/App/Reachable.antt =====
-- What holds of the shared stores whatever the parts do with them, in whatever order.
use miss_raspberry_agent.Prelude.{
  length, All, ℤ, max_int64, ℕ, ◌+◌, ◌≤◌, ◌<◌, ◌≡◌, false, some, List, Text,
}
use miss_raspberry_agent.Todo
use miss_raspberry_agent.Todo.Laws.{IsValid, IsValid-new_store}
use miss_raspberry_agent.Scheduler.Calendar.{Time}
use miss_raspberry_agent.Scheduler.Schedule.Firing.{IsDayTimes}
use miss_raspberry_agent.Scheduler.Store
use miss_raspberry_agent.Scheduler.Store.{Source, is_due, due, dispatch}
use miss_raspberry_agent.Scheduler.Store.Dispatch.Settled.{dispatch-not_due, sent-dispatch}
use miss_raspberry_agent.Scheduler.Store.Dispatch.Reachable.{
  IsSound, Step-IsSound, Reachable-IsSound, adds, cancels, dispatches, initial,
}
use miss_raspberry_agent.Napcat.Incoming.{Segment}
use miss_raspberry_agent.Http.{Api}
use miss_raspberry_agent.App.{
  System, new_system, Turn, requests, comes_in, ticks, schedules, cancels_task, calls_todo_list,
  completes, take_turn,
}
use miss_raspberry_agent.App.Adding.{handle-Steps, incoming-Steps}
use miss_raspberry_agent.App.Queue.{
  IsQueue, HasRoom, Steps-IsQueue, complete_item-IsQueue, call_todo_list-IsQueue,
  forward_all-IsQueue, forward_all_lem,
}

-- What a turn needs: room in the counters for what it adds, and, of a schedule, that its times are
-- minutes of a day in order.
abbrev pub Fits : {N : Type 0} → Turn N → System → Type 0
Fits (requests now req) sys = HasRoom 1 sys.world.queue
Fits (comes_in now msg) sys = HasRoom 1 sys.world.queue
Fits (ticks room moment now) sys =
    HasRoom (length (dispatch room moment sys.tasks).sent) sys.world.queue
Fits (schedules content sch src now) sys = IsDayTimes sch.times × (sys.tasks.next_id < max_int64)
Fits (cancels_task id) sys = Unit
Fits (calls_todo_list now input) sys = HasRoom 1 sys.world.queue
Fits (completes id) sys = Unit

-- The queue and the scheduled tasks are in order.
pub record IsConsistent (sys : System) : Type 0 where
  pub queue : IsQueue sys.world.queue
  pub tasks : IsSound sys.tasks

module _ {N : Type 0} (api : Api) (seconds : ℕ → Text) (parse_message : N → List Segment) where
  -- The states that turns lead to, in any order.
  pub data Reached : System → Type 0 where
    started : Reached new_system
    turned :
        (sys : System) (t : Turn N)
        → Reached sys
        → Fits t sys
        → Reached (take_turn api seconds parse_message t sys)

  take_turn-IsConsistent :
      (t : Turn N) (sys : System)
      → Fits t sys
      → IsConsistent sys
      → IsConsistent (take_turn api seconds parse_message t sys)
  unfolding take_turn
  take_turn-IsConsistent (requests now req) sys fits c = record {
    queue = Steps-IsQueue now sys.world.queue _ (handle-Steps api now req sys.world) c.queue fits;
    tasks = c.tasks;
  }
  take_turn-IsConsistent (comes_in now msg) sys fits c = record {
    queue =
        Steps-IsQueue now sys.world.queue _ (incoming-Steps parse_message now msg sys.world.queue)
          c.queue fits;
    tasks = c.tasks;
  }
  take_turn-IsConsistent (ticks room moment now) sys fits c = record {
    queue =
        forward_all-IsQueue now (dispatch room moment sys.tasks).sent sys.world.queue c.queue fits;
    tasks = Step-IsSound sys.tasks _ (dispatches room moment sys.tasks) c.tasks;
  }
  take_turn-IsConsistent (schedules content sch src now) sys (times, room) c = record {
    queue = c.queue;
    tasks =
        Step-IsSound sys.tasks _ (adds seconds content sch src now sys.tasks times room) c.tasks;
  }
  take_turn-IsConsistent (cancels_task id) sys fits c = record {
    queue = c.queue;
    tasks = Step-IsSound sys.tasks _ (cancels id sys.tasks) c.tasks;
  }
  take_turn-IsConsistent (calls_todo_list now input) sys fits c = record {
    queue = call_todo_list-IsQueue now input sys.world.queue c.queue fits;
    tasks = c.tasks;
  }
  take_turn-IsConsistent (completes id) sys fits c = record {
    queue = complete_item-IsQueue id sys.world.queue c.queue;
    tasks = c.tasks;
  }

  -- Whatever requests, messages, dispatches, tool calls and completions come, and in whatever order:
  -- there is a queue and it is valid, and the scheduled tasks are sound, if the counters have room and the
  -- schedules' times are minutes of a day in order.
  pub Reached-IsConsistent : (sys : System) → Reached sys → IsConsistent sys
  unfolding new_system
  Reached-IsConsistent sys started = record {
    queue = IsValid-new_store;
    tasks = Reachable-IsSound Store.new_store initial;
  }
  Reached-IsConsistent sys (turned before t reached fits) =
      take_turn-IsConsistent t before fits (Reached-IsConsistent before reached)

  -- In every state that the parts reach together, a dispatch whose sends all go through puts one item for
  -- each due task into the shared queue, which stays valid, and leaves no task due, if the queue's counter
  -- has room.
  pub ticks_lem :
      (sys : System) (room : ℕ) (moment : Time) (now : ℤ)
      → Reached sys
      → length (due moment sys.tasks) ≤ room
      → HasRoom (length (due moment sys.tasks)) sys.world.queue
      → (q : Todo.Store) × (q' : Todo.Store) × (sys.world.queue ≡ some q)
        × ((take_turn api seconds parse_message (ticks room moment now) sys).world.queue ≡ some q')
        × IsValid q'
        × (Todo.len q' ≡ Todo.len q + length (due moment sys.tasks))
        × All
            (λ entry. is_due moment entry.1 ≡ false)
            (take_turn api seconds parse_message (ticks room moment now) sys).tasks.tasks
  unfolding take_turn
  ticks_lem sys room moment now reached fits small =
      let c = Reached-IsConsistent sys reached in
      let sent = sent-dispatch room moment sys.tasks c.tasks.valid fits in
      let (q, q', before, after, v, count) =
        forward_all_lem now (due moment sys.tasks) sys.world.queue c.queue small in
      (
        q,
        q',
        before,
        rw sent after,
        v,
        count,
        dispatch-not_due room moment sys.tasks c.tasks.valid fits c.tasks.planned,
      )
