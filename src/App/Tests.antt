-- ===== src/App/Tests.antt =====
-- A task is scheduled, a message comes in, and the task fires.
use miss_raspberry_agent.Prelude.{
  length, All, pos, ◌+◌, ◌≤◌, ◌≡◌, refl, false, some, List, [], arith, codes, text_eq,
}
use miss_raspberry_agent.Todo
use miss_raspberry_agent.Todo.{stamped}
use miss_raspberry_agent.Todo.Laws.{IsValid}
use miss_raspberry_agent.Todo.Tool.{TodoListInput, run_todo_list}
use miss_raspberry_agent.Scheduler.Store.{due, is_due}
use miss_raspberry_agent.Scheduler.Tests.{
  breakfast, breakfast-IsDayTimes, chat, new_year, no_seconds, one_task, one_task-due,
}
use miss_raspberry_agent.Napcat.Incoming.{Segment, handle_incoming_message, should_activate}
use miss_raspberry_agent.Napcat.Tests.{keep, hello}
use miss_raspberry_agent.Http.Tests.{messages_request, test_api}
use miss_raspberry_agent.App.{
  System, Turn, new_system, take_turn, schedules, comes_in, ticks, requests, calls_todo_list,
}
use miss_raspberry_agent.App.Queue.{HasRoom}
use miss_raspberry_agent.App.Reachable.{
  IsConsistent, Reached, started, turned, Reached-IsConsistent, ticks_lem,
}

abbrev after : Turn (List Segment) → System → System
after t sys = take_turn test_api no_seconds keep t sys

abbrev scheduled : System
scheduled = after (schedules (codes "eat") breakfast chat (new_year 0)) new_system

abbrev messaged : System
messaged = after (comes_in (pos 5) hello) scheduled

messaged-room : HasRoom 1 messaged.world.queue
unfolding take_turn new_system handle_incoming_message should_activate text_eq Todo.add
messaged-room = omega arith

scheduled-room : HasRoom 1 scheduled.world.queue
unfolding take_turn new_system
scheduled-room = omega arith

scheduled-Reached : Reached test_api no_seconds keep scheduled
unfolding new_system
scheduled-Reached =
    turned new_system (schedules (codes "eat") breakfast chat (new_year 0)) started
      (breakfast-IsDayTimes, omega arith)

messaged-Reached : Reached test_api no_seconds keep messaged
messaged-Reached = turned scheduled (comes_in (pos 5) hello) scheduled-Reached scheduled-room

-- The agent adds an item of its own.
abbrev add_input : TodoListInput
add_input = record { action = codes "add"; content = codes "call back"; id = [] }

abbrev called : System
called = after (calls_todo_list (pos 6) add_input) messaged

called-room : HasRoom 1 called.world.queue
unfolding take_turn new_system handle_incoming_message should_activate text_eq Todo.add
    run_todo_list
called-room = omega arith

called-Reached : Reached test_api no_seconds keep called
called-Reached = turned messaged (calls_todo_list (pos 6) add_input) messaged-Reached messaged-room

-- A request follows the call.
Reached-IsConsistent_example :
    IsConsistent (after (requests (pos 6) (messages_request (codes "secret"))) called)
Reached-IsConsistent_example =
    Reached-IsConsistent test_api no_seconds keep
      (after (requests (pos 6) (messages_request (codes "secret"))) called)
      (turned called (requests (pos 6) (messages_request (codes "secret"))) called-Reached
        called-room)

messaged-tasks : messaged.tasks ≡ one_task
unfolding take_turn new_system
messaged-tasks = refl

messaged-due : length (due (new_year 480) messaged.tasks) ≤ 1
messaged-due = rw messaged-tasks one_task-due

fires-room : HasRoom (length (due (new_year 480) messaged.tasks)) messaged.world.queue
unfolding take_turn new_system handle_incoming_message should_activate text_eq Todo.add
fires-room = omega (arith, one_task-due)

ticks_lem_example :
    (q : Todo.Store) × (q' : Todo.Store) × (messaged.world.queue ≡ some q)
    × ((after (ticks 1 (new_year 480) (pos 7)) messaged).world.queue ≡ some q')
    × IsValid q'
    × (Todo.len q' ≡ Todo.len q + length (due (new_year 480) messaged.tasks))
    × All
        (λ entry. is_due (new_year 480) entry.1 ≡ false)
        (after (ticks 1 (new_year 480) (pos 7)) messaged).tasks.tasks
ticks_lem_example =
    ticks_lem test_api no_seconds keep messaged 1 (new_year 480) (pos 7) messaged-Reached
      messaged-due fires-room
