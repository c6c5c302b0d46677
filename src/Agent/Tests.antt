-- ===== src/Agent/Tests.antt =====
-- Runs of the agent at concrete data.
use miss_raspberry_agent.Prelude.{
  length, ℤ, pos, ℕ_eq, ℤ_eq, ℕ, ◌+◌, ◌≤◌, ◌≡◌, refl, true, false, none, some, List, [], ◌∷◌, arith,
  format_nat, format_int, Text, codes, text_eq, text_eq_inst,
}
use miss_raspberry_agent.Prelude.Sorting.{sort_by}
use miss_raspberry_agent.Prelude.Table
use miss_raspberry_agent.Prelude.Ids.{numbered}
use miss_raspberry_agent.Todo
use miss_raspberry_agent.Todo.{Item, stamped, item_id}
use miss_raspberry_agent.Todo.Laws.{IsValid, IsValid-new_store, add-IsValid}
use miss_raspberry_agent.Agent.History.{
  Message, assistant, tool, sanitize_history, sanitize_from, pending, without,
}
use miss_raspberry_agent.Agent.History.Pairing.{Answered}
use miss_raspberry_agent.Agent.Loop.{
  Agent, Run, Drained, Polled, Event, last_error, drain_todo_list, poll, wakes, sent_history,
  user_message, max_history_messages,
}
use miss_raspberry_agent.Agent.Loop.Drain.{
  EndsQueue, drain_todo_list_ends, poll_sleeps, sent_history-Answered,
}
use miss_raspberry_agent.Agent.Loop.Failing.{poll_failing}

abbrev call_time : Message
call_time = record {
  role = assistant;
  content = [];
  tool_calls = codes "call-1" ∷ [];
  tool_call_id = [];
}

abbrev time_result : Message
time_result = record {
  role = tool;
  content = codes "noon";
  tool_calls = [];
  tool_call_id = codes "call-1";
}

abbrev turn : List Message
turn = user_message (codes "time?") ∷ call_time ∷ time_result ∷ []

abbrev with_orphan : List Message
with_orphan = time_result ∷ turn

-- The orphan in front is dropped.
sanitize_history-with_orphan : sanitize_history with_orphan ≡ turn
unfolding sanitize_history sanitize_from pending without text_eq
sanitize_history-with_orphan = refl

called : pending (codes "call-1") (codes "call-1" ∷ []) ≡ true
unfolding pending text_eq
called = refl

abbrev no_time : ℤ → Text
no_time t = []

abbrev failure : Event
failure = record { error = some (codes "timeout"); output = none }

-- A model that never answers.
abbrev timeout_runner : ℕ → Todo.Store → List Message → Run ℕ
timeout_runner w todo h = record { todo = todo; world = w; events = failure ∷ [] }

timeout_fails :
    (w : ℕ) (todo : Todo.Store) (h : List Message)
    → last_error (timeout_runner w todo h).events ≡ some (codes "timeout")
unfolding last_error
timeout_fails w todo h = refl

abbrev reply : Item
reply = record {
  id = [];
  content = codes "answer Alice";
  context = [];
  source = codes "chat";
  target_type = codes "private";
  target_id = pos 7;
  user_id = pos 7;
  created_at = pos 0;
}

abbrev queue : Todo.Store
queue = (Todo.add (pos 100) reply Todo.new_store).0

queue-IsValid : IsValid queue
queue-IsValid = add-IsValid (pos 100) reply Todo.new_store IsValid-new_store (omega arith)

abbrev queue_item : Item
queue_item = record reply { id = codes "item-1"; created_at = pos 100 }

list-queue : Todo.list queue ≡ queue_item ∷ []
unfolding Todo.list Todo.add sort_by Table.values Table.put stamped item_id numbered format_int
    format_nat
list-queue = refl

abbrev agent : Agent ℕ
agent = record {
  todo = queue;
  history = turn;
  source = record { description = []; target_type = []; target_id = pos 0; user_id = pos 0 };
  world = 0;
}

abbrev polled : Polled ℕ
polled = record { agent = agent; stalled_version = pos 0 }

awake : wakes no_time timeout_runner polled ≡ true
unfolding wakes Todo.is_empty_store Todo.version Todo.add Table.put
awake = refl

sent_history-Answered_example : Answered [] (sent_history no_time timeout_runner agent)
sent_history-Answered_example = sent_history-Answered no_time timeout_runner agent

drain_todo_list_ends_example :
    (d : Drained ℕ) × (drain_todo_list no_time timeout_runner agent ≡ some d)
    × (d.rounds ≤ 30)
    × (length d.agent.history ≤ max_history_messages)
    × EndsQueue d.ending d.agent.todo
drain_todo_list_ends_example = drain_todo_list_ends no_time timeout_runner agent (omega arith)

poll_sleeps_example :
    (q : Polled ℕ) × (poll no_time timeout_runner polled ≡ some q)
    × (wakes no_time timeout_runner q ≡ false)
poll_sleeps_example = poll_sleeps no_time timeout_runner polled (omega arith)

poll_failing_example :
    (q : Polled ℕ) × (poll no_time timeout_runner polled ≡ some q)
    × (Todo.len q.agent.todo + 1 ≡ Todo.len queue)
    × (wakes no_time timeout_runner q ≡ false)
poll_failing_example =
    poll_failing no_time timeout_runner (codes "timeout") timeout_fails (λ w todo h. refl) polled
      queue_item [] queue-IsValid awake list-queue
