-- ===== src/Agent/Loop/Drain.antt =====
-- The drain of the todo queue: it ends, and how.
use miss_raspberry_agent.Prelude.{
  ltb, leb, if◌then◌else◌, Bool-cases, Option-cases, length, ℤ, ℕ, zero, suc, ◌+◌, ◌-◌, ◌*◌, ◌≤◌,
  ◌<◌, ◌≡◌, refl, ap, inl, inr, true, false, some, List, [], ◌∷◌, ◌++◌, arith, Text,
}
use miss_raspberry_agent.Todo
use miss_raspberry_agent.Agent.History.{Message, sanitize_history, with_user_message}
use miss_raspberry_agent.Agent.History.Pairing.{Answered, sanitize_history-Answered}
use miss_raspberry_agent.Agent.History.Bound.{trim_history_lem}
use miss_raspberry_agent.Agent.Loop.{
  Agent, Run, Drained, Ending, cleared, stalled, failed, Polled, last_error, run_messages,
  activation, sent_history, run_once, give_up, drain_from, drain_todo_list,
  set_current_source_from_queue, wakes, poll, user_message, max_history_messages,
}

-- What an ending says of the queue.
abbrev pub EndsQueue : Ending → Todo.Store → Type 0
EndsQueue cleared todo = Todo.is_empty_store todo ≡ true
EndsQueue stalled todo = Todo.is_empty_store todo ≡ false
EndsQueue (failed id) todo = Unit

Answered-user :
    (content : Text) (earlier ms : List Message)
    → Answered earlier ms
    → Answered earlier (ms ++ user_message content ∷ [])
Answered-user content earlier [] h = (tt, tt)
Answered-user content earlier (m ∷ ms) h = (h.0, Answered-user content (m ∷ earlier) ms h.1)

module _ {W : Type 0} (local_time : ℤ → Text) (runner : W → Todo.Store → List Message → Run W) where
  history-run_once :
      (a : Agent W)
      → length a.history ≤ max_history_messages
      → length (run_once local_time runner a).0.history ≤ max_history_messages
  unfolding run_once
  history-run_once a short =
      elim (Option-cases
        (last_error (runner a.world a.todo (sent_history local_time runner a)).events)) [
          | inl fine ↦
              let (_, _, kept) =
                trim_history_lem
                  (sanitize_history (
                    with_user_message a.history (activation local_time runner a)
                    ++ run_messages
                        (runner a.world a.todo (sent_history local_time runner a)).events))
                  max_history_messages (omega arith) in
              ground (arith, kept)
          | inr (e, bad) ↦ ground arith
        ]

  history-give_up : (a : Agent W) → (give_up local_time runner a).0.history ≡ a.history
  unfolding give_up
  history-give_up a = ground arith

  -- The drain that stops after a round.
  abbrev stop : Agent W → Ending → ℕ → Drained W
  stop a ending rounds = record { agent = a; ending = ending; rounds = rounds + 1 }

  drain_from_ends :
      (fuel rounds rewakes errors : ℕ) (a : Agent W)
      → rewakes ≤ 5
      → errors < 5
      → (5 - rewakes) * 5 + (5 - errors) ≤ fuel
      → length a.history ≤ max_history_messages
      → (d : Drained W) × (drain_from local_time runner fuel rounds rewakes errors a ≡ some d)
        × (d.rounds ≤ rounds + fuel)
        × (length d.agent.history ≤ max_history_messages)
        × EndsQueue d.ending d.agent.todo
  unfolding drain_from
  drain_from_ends zero rounds rewakes errors a r e enough short = absurd (omega arith)
  drain_from_ends (suc fuel) rounds rewakes errors a r e enough short =
      let short' = history-run_once a short in
      elim (Option-cases (run_once local_time runner a).1) [
        | inl fine ↦ elim (Bool-cases (Todo.is_empty_store (run_once local_time runner a).0.todo)) [
          | inl done ↦ (
            stop (run_once local_time runner a).0 cleared rounds,
            rw (fine, done, drain_from) refl,
            omega arith,
            short',
            done,
          )
          | inr more ↦ elim (Bool-cases (ltb 5 (rewakes + 1))) [
            | inl last ↦ (
              stop (run_once local_time runner a).0 stalled rounds,
              rw (fine, more, last, drain_from) refl,
              omega arith,
              short',
              more,
            )
            | inr again ↦
                let (d, ended, few, kept, ends) =
                  drain_from_ends fuel (rounds + 1) (rewakes + 1) 0 (run_once local_time runner a).0
                    (ground arith) (omega arith) (ground arith) short' in
                (d, rw (fine, more, again, drain_from) ended, omega arith, kept, ends)
          ]
        ]
        | inr (x, bad) ↦ elim (Bool-cases (leb 5 (errors + 1))) [
          | inl last ↦ (
            stop (give_up local_time runner (run_once local_time runner a).0).0
                (failed (give_up local_time runner (run_once local_time runner a).0).1) rounds,
            rw (bad, last, drain_from) refl,
            omega arith,
            omega (arith, ap length (history-give_up (run_once local_time runner a).0)),
            tt,
          )
          | inr again ↦
              let (d, ended, few, kept, ends) =
                drain_from_ends fuel (rounds + 1) rewakes (errors + 1)
                  (run_once local_time runner a).0 r (ground arith) (ground arith) short' in
              (d, rw (bad, again, drain_from) ended, omega arith, kept, ends)
        ]
      ]

  -- Whatever the runner does, drainTodoList ends after at most 30 rounds. It leaves at most 20 messages
  -- in the history if there were no more before. Where it ends because the queue is cleared the queue
  -- is empty, and where it ends because the rewakes are used up the queue is not.
  pub drain_todo_list_ends :
      (a : Agent W)
      → length a.history ≤ max_history_messages
      → (d : Drained W) × (drain_todo_list local_time runner a ≡ some d)
        × (d.rounds ≤ 30)
        × (length d.agent.history ≤ max_history_messages)
        × EndsQueue d.ending d.agent.todo
  unfolding drain_todo_list
  drain_todo_list_ends a short =
      drain_from_ends 30 0 0 0 a (omega arith) (omega arith) (omega arith) short

  history-set_current_source :
      (a : Agent W) → (set_current_source_from_queue local_time runner a).history ≡ a.history
  unfolding set_current_source_from_queue
  history-set_current_source a = ground arith

  -- What a drain leaves of the state of Run's loop.
  abbrev pub slept : Polled W → Drained W → Polled W
  slept p d = record {
    agent = d.agent;
    stalled_version =
        if Todo.is_empty_store d.agent.todo then p.stalled_version else Todo.version d.agent.todo;
  }

  pub slept-wakes : (p : Polled W) (d : Drained W) → wakes local_time runner (slept p d) ≡ false
  unfolding wakes
  slept-wakes p d = ground arith

  -- With at most 20 messages in the history, a turn of Run's loop ends, and after it Run sleeps: with nothing new in the queue, it does not wake
  -- the agent again.
  pub poll_sleeps :
      (p : Polled W)
      → length p.agent.history ≤ max_history_messages
      → (q : Polled W) × (poll local_time runner p ≡ some q) × (wakes local_time runner q ≡ false)
  unfolding poll wakes
  poll_sleeps p short = elim (Bool-cases (wakes local_time runner p)) [
    | inl awake ↦
        let a = set_current_source_from_queue local_time runner p.agent in
        let (d, ended, _, _, _) =
          drain_todo_list_ends a (omega (arith, ap length (history-set_current_source p.agent))) in
        (slept p d, rw (awake, ended) refl, slept-wakes p d)
    | inr asleep ↦ (p, rw asleep refl, asleep)
  ]

  -- What a round sends to the model is a history in which each tool message answers a call.
  pub sent_history-Answered : (a : Agent W) → Answered [] (sent_history local_time runner a)
  unfolding sent_history with_user_message activation
  sent_history-Answered a = Answered-user _ [] _ (sanitize_history-Answered a.history)
