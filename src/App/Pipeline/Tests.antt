-- ===== src/App/Pipeline/Tests.antt =====
-- A task that fires once, and one that is cancelled while it waits.
use miss_raspberry_agent.Prelude.{
  length, pos, max_int64, ℕ_eq, ℤ_eq, ◌+◌, ◌≤◌, ◌≡◌, refl, ap, false, none, some, List, [], ◌∷◌,
  ◌++◌, arith, format_int, codes, text_eq, text_eq_inst, ok,
}
use miss_raspberry_agent.Prelude.Table
use miss_raspberry_agent.Prelude.Sorting.{sort_by, insert_by}
use miss_raspberry_agent.Prelude.Ids.{numbered}
use miss_raspberry_agent.Scheduler.Calendar.{unix}
use miss_raspberry_agent.Scheduler.Schedule.{next, repeats}
use miss_raspberry_agent.Scheduler.Store
use miss_raspberry_agent.Scheduler.Store.{
  Task, add_at, cancel, fire, due, select_due, is_due, new_task, task_id,
}
use miss_raspberry_agent.Scheduler.Store.Dispatch.Reachable.{
  IsSound, add_at-IsSound, Reachable-IsSound, initial,
}
use miss_raspberry_agent.Scheduler.Store.Dispatch.Ticks.{count_sent, standing}
use miss_raspberry_agent.Scheduler.Tests.{
  chat, new_year, no_seconds, one_shot, shot, shot_store, shot-found,
}
use miss_raspberry_agent.Todo.Laws.{IsValid, IsValid-new_store}
use miss_raspberry_agent.Agent.Loop.{enqueue_scheduled_task}
use miss_raspberry_agent.App.Pipeline.{
  Pipeline, new_pipeline, waiting, looping, sending, Action, ticks, turns, sends, forwards,
  schedules, cancels, Outcome, quiet, joined, run, act, tick_at, turn_at, turned, send_at,
  forward_from, fires_capacity,
}
use miss_raspberry_agent.App.Pipeline.Runs.{run-step, run-append}
use miss_raspberry_agent.App.Pipeline.Rising.{Rises}
use miss_raspberry_agent.App.Pipeline.Occurrences.{run_occurrences}
use miss_raspberry_agent.App.Pipeline.Fifo.{InOrder, in_flight, run-InOrder}
use miss_raspberry_agent.App.Pipeline.Origin.{Became, fires_as_added}
use miss_raspberry_agent.App.Pipeline.Once.{fires_once, run_cancelled}
use miss_raspberry_agent.App.Pipeline.Atomic.{act-turn}
use miss_raspberry_agent.App.Pipeline.Settling.{pending, Settled, settles}
use miss_raspberry_agent.App.Pipeline.Delivery.{Delivers, due_delivered}

abbrev planned : Pipeline
planned = record new_pipeline { tasks = shot_store }

abbrev plan : List Action
plan = schedules (codes "call") one_shot chat (new_year 0) ∷ []

plan-run : run no_seconds plan new_pipeline ≡ some (quiet planned)
unfolding run act new_pipeline
plan-run = refl

shot-due : due (new_year 480) shot_store ≡ shot ∷ []
unfolding add_at due select_due is_due unix sort_by insert_by Table.values Table.put next new_task
shot-due = refl

-- The event is in the scheduler's hand.
abbrev in_hand : Outcome
in_hand = record {
  pipeline = record planned {
    tasks = (fire (new_year 480) shot shot_store).0;
    phase = sending (new_year 480) shot [];
  };
  fired = shot ∷ [];
  forwarded = [];
}

fire-shot : (fire (new_year 480) shot shot_store).1 ≡ some shot
unfolding fire unix new_task task_id numbered format_int add_at next Table.put Table.get text_eq
fire-shot = refl

hand-run : run no_seconds (ticks (new_year 480) ∷ turns ∷ []) planned ≡ some in_hand
unfolding run act tick_at turn_at turned new_pipeline
hand-run =
    let begun : Pipeline = record planned {
      phase = looping (new_year 480) (due (new_year 480) shot_store);
    } in
    run-step no_seconds (ticks (new_year 480)) (turns ∷ []) planned (quiet begun) in_hand refl (
      run-step no_seconds turns [] begun in_hand (quiet in_hand.pipeline)
        (act-turn no_seconds (new_year 480) shot [] (some shot) begun
          (ap (looping (new_year 480)) shot-due) fire-shot)
        refl)

run-InOrder_example : InOrder planned in_hand
run-InOrder_example =
    run-InOrder no_seconds (ticks (new_year 480) ∷ turns ∷ []) planned in_hand hand-run

planned-found : Table.get (codes "task-1") planned.tasks.tasks ≡ some shot
planned-found = shot-found

shot-single : shot.repeat ≡ false
unfolding new_task repeats
shot-single = refl

fires_once_example :
    count_sent (codes "task-1") in_hand.fired + standing (codes "task-1") in_hand.pipeline.tasks ≤ 1
fires_once_example =
    fires_once no_seconds plan (ticks (new_year 480) ∷ turns ∷ []) (quiet planned) in_hand
      (codes "task-1") shot (tt, tt) (tt, (tt, tt)) (omega arith) plan-run planned-found shot-single
      hand-run

-- The dispatch begins, finds the task gone, and goes on to the end of its loop.
abbrev called_off : Outcome
called_off = quiet (record planned {
  tasks = (cancel (codes "task-1") shot_store).0;
  phase = looping (new_year 480) [];
})

called_off-due : due (new_year 480) (cancel (codes "task-1") shot_store).0 ≡ []
unfolding cancel add_at due select_due is_due unix sort_by insert_by Table.values Table.put
    Table.get Table.delete next new_task text_eq task_id numbered format_int
called_off-due = refl

called_off-run :
    run no_seconds (cancels (codes "task-1") ∷ ticks (new_year 480) ∷ []) planned ≡ some called_off
unfolding run act tick_at new_pipeline
called_off-run = rw called_off-due refl

run_cancelled_example : count_sent (codes "task-1") called_off.fired ≡ 0
run_cancelled_example =
    run_cancelled no_seconds plan (ticks (new_year 480) ∷ []) (quiet planned) called_off
      (codes "task-1") shot (tt, tt) (tt, tt) (omega arith) plan-run planned-found called_off-run

planned-waits : planned.phase ≡ waiting
unfolding new_pipeline
planned-waits = refl

planned-empty : planned.fires ≡ []
unfolding new_pipeline
planned-empty = refl

planned-free : length (due (new_year 480) planned.tasks) ≤ fires_capacity
planned-free = rw shot-due (omega arith)

planned-room : planned.queue.next_id + length (due (new_year 480) planned.tasks) ≤ max_int64
unfolding new_pipeline
planned-room = rw shot-due (omega arith)

planned-IsSound : IsSound planned.tasks
planned-IsSound =
    add_at-IsSound no_seconds (codes "call") one_shot chat (new_year 0) Store.new_store tt
      (omega arith) (Reachable-IsSound Store.new_store initial)

planned-IsValid : IsValid planned.queue
unfolding new_pipeline
planned-IsValid = IsValid-new_store

due_delivered_example :
    (actions : List Action) × (o : Outcome) × (run no_seconds actions planned ≡ some o)
    × Delivers (new_year 480) planned o
due_delivered_example =
    due_delivered no_seconds (new_year 480) (pos 7) planned planned-IsSound planned-IsValid
      planned-free planned-room planned-waits planned-empty

in_hand-room :
    in_hand.pipeline.queue.next_id
      + (length (in_flight in_hand.pipeline) + pending in_hand.pipeline.phase)
    ≤ max_int64
unfolding new_pipeline
in_hand-room = omega arith

settles_example :
    (actions : List Action) × (o : Outcome) × (run no_seconds actions in_hand.pipeline ≡ some o)
    × Settled in_hand.pipeline o
settles_example = settles no_seconds (pos 7) in_hand.pipeline tt planned-IsValid in_hand-room

-- From the start to the event in hand
abbrev first_steps : List Action
first_steps = plan ++ ticks (new_year 480) ∷ turns ∷ []

first-run : run no_seconds first_steps new_pipeline ≡ some (joined (quiet planned) in_hand)
first-run =
    run-append no_seconds plan (ticks (new_year 480) ∷ turns ∷ []) new_pipeline (quiet planned)
      in_hand plan-run hand-run

run_occurrences_example :
    Rises (codes "task-1") none (joined (quiet planned) in_hand).fired
    × Rises (codes "task-1") none (joined (quiet planned) in_hand).forwarded
run_occurrences_example =
    run_occurrences no_seconds (codes "task-1") first_steps (joined (quiet planned) in_hand)
      (tt, (tt, (tt, tt))) (omega arith) first-run

not_begun : run no_seconds [] new_pipeline ≡ some (quiet new_pipeline)
unfolding run
not_begun = refl

shot-added :
    (add_at no_seconds (codes "call") (some one_shot) chat (new_year 0) new_pipeline.tasks).1
    ≡ ok shot
unfolding new_pipeline add_at next
shot-added = refl

-- The event is in the channel, and then in the queue.
abbrev in_channel : Pipeline
in_channel = record in_hand.pipeline { phase = looping (new_year 480) []; fires = shot ∷ [] }

send-shot : act no_seconds sends in_hand.pipeline ≡ some (quiet in_channel)
unfolding act send_at new_pipeline
send-shot = refl

sent_steps : run no_seconds (sends ∷ []) in_hand.pipeline ≡ some (quiet in_channel)
unfolding run
sent_steps =
    run-step no_seconds sends [] in_hand.pipeline (quiet in_channel) (quiet in_channel) send-shot
      refl

abbrev all_steps : List Action
all_steps = first_steps ++ sends ∷ []

abbrev sent_on : Outcome
sent_on = joined (joined (quiet planned) in_hand) (quiet in_channel)

sent-run : run no_seconds all_steps new_pipeline ≡ some sent_on
sent-run =
    run-append no_seconds first_steps (sends ∷ []) new_pipeline (joined (quiet planned) in_hand)
      (quiet in_channel) first-run sent_steps

abbrev passed_on : Outcome
passed_on = record {
  pipeline = record in_channel {
    fires = [];
    queue = enqueue_scheduled_task (pos 7) shot in_channel.queue;
  };
  fired = [];
  forwarded = shot ∷ [];
}

forward-shot : act no_seconds (forwards (pos 7)) sent_on.pipeline ≡ some passed_on
unfolding act forward_from
forward-shot = refl

fires_as_added_example :
    (e : Task) × (passed_on.forwarded ≡ e ∷ [])
    × (e.id ≡ shot.id
        → Became no_seconds
            (codes "call")
            one_shot
            chat
            sent_on.pipeline.queue
            passed_on.pipeline.queue)
fires_as_added_example =
    fires_as_added no_seconds (codes "call") one_shot chat []
      (ticks (new_year 480) ∷ turns ∷ sends ∷ []) (quiet new_pipeline) sent_on (new_year 0) shot tt
      (tt, (tt, (tt, tt))) tt (omega arith) not_begun shot-added sent-run (pos 7) passed_on
      forward-shot
