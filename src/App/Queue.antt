-- ===== src/App/Queue.antt =====
-- What the parts do to the queue that they share keeps it valid.
use miss_raspberry_agent.Prelude.{
  length, ℤ, max_int64, ℕ, ◌+◌, ◌≤◌, ◌≡◌, refl, sym, subst, Option, none, some, List, arith, Text,
}
use miss_raspberry_agent.Todo
use miss_raspberry_agent.Todo.Laws.{IsValid, add-IsValid, complete-IsValid}
use miss_raspberry_agent.Todo.Tool.{TodoListInput, run_todo_list-IsValid}
use miss_raspberry_agent.Scheduler.Store
use miss_raspberry_agent.Scheduler.Store.{Source, is_due, due, dispatch}
use miss_raspberry_agent.Agent.Loop.{forward_scheduled_fires}
use miss_raspberry_agent.Agent.Loop.Forward.{forward_scheduled_fires_lem}
use miss_raspberry_agent.App.Adding.{same, grown, Steps}
use miss_raspberry_agent.App.{complete_item, call_todo_list, forward_all}

-- There is a queue, and it is valid.
abbrev pub IsQueue : Option Todo.Store → Type 0
IsQueue none = ⊥
IsQueue (some s) = IsValid s

-- The queue's counter has room for n items.
abbrev pub HasRoom : ℕ → Option Todo.Store → Type 0
HasRoom n none = Unit
HasRoom n (some s) = s.next_id + n ≤ max_int64

-- A step keeps the queue valid if its counter has room for an item.
pub Steps-IsQueue :
    (now : ℤ) (queue queue' : Option Todo.Store)
    → Steps now queue queue'
    → IsQueue queue
    → HasRoom 1 queue
    → IsQueue queue'
Steps-IsQueue now none queue' step v room = absurd v
Steps-IsQueue now (some q) none step v room = absurd step
Steps-IsQueue now (some q) (some q') (same e) v room = subst IsValid (sym e) v
Steps-IsQueue now (some q) (some q') (grown item e) v room =
    subst IsValid (sym e) (add-IsValid now item q v (omega arith))

pub complete_item-IsQueue :
    (id : Text) (queue : Option Todo.Store) → IsQueue queue → IsQueue (complete_item id queue)
unfolding complete_item
complete_item-IsQueue id none v = v
complete_item-IsQueue id (some s) v = complete-IsValid id s v

pub call_todo_list-IsQueue :
    (now : ℤ) (input : TodoListInput) (queue : Option Todo.Store)
    → IsQueue queue
    → HasRoom 1 queue
    → IsQueue (call_todo_list now input queue)
unfolding call_todo_list
call_todo_list-IsQueue now input none v room = v
call_todo_list-IsQueue now input (some s) v room = run_todo_list-IsValid now input s v (omega arith)

pub forward_all-IsQueue :
    (now : ℤ) (tasks : List Store.Task) (queue : Option Todo.Store)
    → IsQueue queue
    → HasRoom (length tasks) queue
    → IsQueue (forward_all now tasks queue)
unfolding forward_all
forward_all-IsQueue now tasks none v room = v
forward_all-IsQueue now tasks (some s) v room = (forward_scheduled_fires_lem now tasks s v room).0

-- Forwarding to a queue with room adds one item for each task.
pub forward_all_lem :
    (now : ℤ) (tasks : List Store.Task) (queue : Option Todo.Store)
    → IsQueue queue
    → HasRoom (length tasks) queue
    → (q : Todo.Store) × (q' : Todo.Store) × (queue ≡ some q)
      × (forward_all now tasks queue ≡ some q')
      × IsValid q'
      × (Todo.len q' ≡ Todo.len q + length tasks)
unfolding forward_all
forward_all_lem now tasks none v room = absurd v
forward_all_lem now tasks (some s) v room =
    let (valid, count) = forward_scheduled_fires_lem now tasks s v room in
    (s, forward_scheduled_fires now tasks s, refl, refl, valid, count)
