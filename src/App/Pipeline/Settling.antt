-- ===== src/App/Pipeline/Settling.antt =====
-- No state of a scheduler that has not ended is stuck: it and the forwarding can finish what has begun.
use miss_raspberry_agent.Prelude.{
  Option-cases, length, length-append, All, ℤ, max_int64, ℕ, ◌+◌, ◌≤◌, ◌≡◌, refl, sym, ap, ◌∙◌,
  subst, inl, inr, none, some, List, [], ◌∷◌, ◌++◌, arith, Text,
}
use mathlib.Core.List.{append-nil}
use miss_raspberry_agent.Todo
use miss_raspberry_agent.Todo.Laws.{IsValid}
use miss_raspberry_agent.Agent.Loop.Forward.{Gained, forward_scheduled_fires_lem, forward-Gained}
use miss_raspberry_agent.Scheduler.Calendar.{Time}
use miss_raspberry_agent.Scheduler.Store.{Task, fire}
use miss_raspberry_agent.Agent.Loop.{enqueue_scheduled_task, forward_scheduled_fires}
use miss_raspberry_agent.App.Pipeline.{
  Phase, waiting, looping, sending, ended, Pipeline, Action, turns, sends, forwards, Outcome, quiet,
  joined, turned, forward_from, act, run,
}
use miss_raspberry_agent.App.Pipeline.Runs.{run-step, run-append}
use miss_raspberry_agent.App.Pipeline.Fifo.{given_up, in_flight, run-InOrder}
use miss_raspberry_agent.App.Pipeline.Atomic.{act-turn, act-last, act-send}

-- The scheduler has not ended.
abbrev pub IsRunning : Phase → Type 0
IsRunning waiting = Unit
IsRunning (looping now ts) = Unit
IsRunning (sending now event ts) = Unit
IsRunning (ended lost) = ⊥

IsRunning-given_up : (ph : Phase) → IsRunning ph → given_up ph ≡ []
IsRunning-given_up waiting runs = refl
IsRunning-given_up (looping now ts) runs = refl
IsRunning-given_up (sending now event ts) runs = refl
IsRunning-given_up (ended lost) runs = absurd runs

-- The tasks that the dispatch still has to look at
abbrev pub pending : Phase → ℕ
pending waiting = 0
pending (looping moment ts) = length ts
pending (sending moment event ts) = length ts
pending (ended lost) = 0

-- All that was in flight or was fired is forwarded and in the queue, and the scheduler waits.
pub record Settled (p : Pipeline) (o : Outcome) : Type 0 where
  pub waits : o.pipeline.phase ≡ waiting
  pub empty : o.pipeline.fires ≡ []
  pub forwarded : o.forwarded ≡ in_flight p ++ o.fired
  pub gained : All (Gained p.queue o.pipeline.queue) (in_flight p ++ o.fired)
  pub count : Todo.len o.pipeline.queue ≡ Todo.len p.queue + length (in_flight p ++ o.fired)

module _ (seconds : ℕ → Text) (now : ℤ) where
  -- The channel, forwarded whole
  abbrev pub emptied : Pipeline → Outcome
  emptied p = record {
    pipeline = record p { fires = []; queue = forward_scheduled_fires now p.fires p.queue };
    fired = [];
    forwarded = p.fires;
  }

  act-forward :
      (task : Task) (fires : List Task) (p : Pipeline)
      → p.fires ≡ task ∷ fires
      → act seconds (forwards now) p
        ≡ some (record {
          pipeline = record p { fires = fires; queue = enqueue_scheduled_task now task p.queue };
          fired = [];
          forwarded = task ∷ [];
        })
  unfolding act forward_from
  act-forward task fires p at = rw at refl

  empties_from :
      (fires : List Task) (p : Pipeline)
      → p.fires ≡ fires
      → (actions : List Action) × (run seconds actions p
          ≡ some (record {
            pipeline = record p { fires = []; queue = forward_scheduled_fires now fires p.queue };
            fired = [];
            forwarded = fires;
          }))
  unfolding run forward_scheduled_fires
  empties_from [] p at = ([], rw at refl)
  empties_from (task ∷ fires) p at =
      let q : Pipeline = record p {
        fires = fires;
        queue = enqueue_scheduled_task now task p.queue;
      } in
      let (actions, ran) = empties_from fires q refl in
      (
        forwards now ∷ actions,
        run-step seconds (forwards now) actions p
            (record { pipeline = q; fired = []; forwarded = task ∷ [] }) _
            (act-forward task fires p at) ran,
      )

  pub empties :
      (p : Pipeline) → (actions : List Action) × (run seconds actions p ≡ some (emptied p))
  empties p = empties_from p.fires p refl

  forward-append :
      (xs ys : List Task) (q : Todo.Store)
      → forward_scheduled_fires now (xs ++ ys) q
        ≡ forward_scheduled_fires now ys (forward_scheduled_fires now xs q)
  unfolding forward_scheduled_fires
  forward-append [] ys q = refl
  forward-append (x ∷ xs) ys q = forward-append xs ys (enqueue_scheduled_task now x q)

  -- A run to an empty channel and a scheduler that waits, with all that was forwarded in the queue, in which n
  -- events are fired at most.
  record Rests (n : ℕ) (p : Pipeline) : Type 0 where
    actions : List Action
    outcome : Outcome
    ran : run seconds actions p ≡ some outcome
    empty : outcome.pipeline.fires ≡ []
    waits : outcome.pipeline.phase ≡ waiting
    queued : outcome.pipeline.queue ≡ forward_scheduled_fires now outcome.forwarded p.queue
    bounded : length outcome.fired ≤ n

  after_step :
      (m n : ℕ) (a : Action) (p : Pipeline) (first : Outcome)
      → act seconds a p ≡ some first
      → first.forwarded ≡ []
      → first.pipeline.queue ≡ p.queue
      → length first.fired + m ≤ n
      → Rests m first.pipeline
      → Rests n p
  after_step m n a p first acted none_forwarded same_queue room r = record {
    actions = a ∷ r.actions;
    outcome = joined first r.outcome;
    ran = run-step seconds a r.actions p first r.outcome acted r.ran;
    empty = r.empty;
    waits = r.waits;
    queued =
        r.queued
        ∙ ap (forward_scheduled_fires now r.outcome.forwarded) same_queue
        ∙ ap (λ xs. forward_scheduled_fires now (xs ++ r.outcome.forwarded) p.queue)
            (sym none_forwarded);
    bounded = omega (arith, r.bounded, length-append first.fired r.outcome.fired);
  }

  after_emptying : (n : ℕ) (p : Pipeline) → Rests n (emptied p).pipeline → Rests n p
  after_emptying n p r =
      let (actions, ran) = empties p in
      record {
        actions = actions ++ r.actions;
        outcome = joined (emptied p) r.outcome;
        ran = run-append seconds actions r.actions p (emptied p) r.outcome ran r.ran;
        empty = r.empty;
        waits = r.waits;
        queued = r.queued ∙ sym (forward-append p.fires r.outcome.forwarded p.queue);
        bounded = r.bounded;
      }

  now_resting : (p : Pipeline) → p.fires ≡ [] → p.phase ≡ waiting → Rests 0 p
  unfolding run forward_scheduled_fires
  now_resting p empty waits = record {
    actions = [];
    outcome = quiet p;
    ran = refl;
    empty = empty;
    waits = waits;
    queued = refl;
    bounded = omega arith;
  }

  loop-Rests :
      (moment : Time) (ts : List Task) (p : Pipeline)
      → p.phase ≡ looping moment ts
      → Rests (length ts) p
  unfolding turned
  loop-Rests moment [] p at =
      after_step 0 0 turns p _ (act-last seconds moment p at) refl refl (omega arith)
        (after_emptying 0 _ (now_resting _ refl refl))
  loop-Rests moment (t ∷ ts) p at = elim (Option-cases (fire moment t p.tasks).1) [
    | inl passed ↦
        after_step (length ts) (length (t ∷ ts)) turns p _
          (act-turn seconds moment t ts none p at passed) refl refl (omega arith)
          (loop-Rests moment ts
            (record p { tasks = (fire moment t p.tasks).0; phase = looping moment ts }) refl)
    | inr (event, found) ↦
        let q : Pipeline = record p {
          tasks = (fire moment t p.tasks).0;
          phase = sending moment event ts;
        } in
        after_step (length ts) (length (t ∷ ts)) turns p _
          (act-turn seconds moment t ts (some event) p at found) refl refl (omega arith)
          (sending-Rests moment event ts q refl (λ r at'. loop-Rests moment ts r at'))
  ]
    where
      sending-Rests :
          (moment : Time) (event : Task) (ts : List Task) (q : Pipeline)
          → q.phase ≡ sending moment event ts
          → ((r : Pipeline) → r.phase ≡ looping moment ts → Rests (length ts) r)
          → Rests (length ts) q
      sending-Rests moment event ts q at goes_on = after_emptying (length ts) q (
          after_step (length ts) (length ts) sends (emptied q).pipeline _
            (act-send seconds moment event ts (emptied q).pipeline at (omega arith)) refl refl
            (omega arith) (goes_on _ refl))

  phase-Rests : (ph : Phase) (p : Pipeline) → p.phase ≡ ph → IsRunning ph → Rests (pending ph) p
  phase-Rests waiting p at runs = after_emptying 0 p (now_resting _ refl at)
  phase-Rests (ended lost) p at runs = absurd runs
  phase-Rests (looping moment ts) p at runs = loop-Rests moment ts p at
  phase-Rests (sending moment event ts) p at runs = after_emptying (length ts) p (
      after_step (length ts) (length ts) sends (emptied p).pipeline _
        (act-send seconds moment event ts (emptied p).pipeline at (omega arith)) refl refl
        (omega arith) (loop-Rests moment ts _ refl))

  -- From every state whose scheduler has not ended there is a run to one where the scheduler waits for a
  -- tick and the channel is empty. In that run everything that was in flight or has been fired since is
  -- forwarded, in order, and the queue has grown by an item for each of these, under an id that was free, with
  -- the task's schedule, content, source and target. The queue is valid, and its counter has room for what
  -- is in flight and what the dispatch still has to look at.
  pub settles :
      (p : Pipeline)
      → IsRunning p.phase
      → IsValid p.queue
      → p.queue.next_id + (length (in_flight p) + pending p.phase) ≤ max_int64
      → (actions : List Action) × (o : Outcome) × (run seconds actions p ≡ some o) × Settled p o
  settles p runs valid room =
      let r = phase-Rests p.phase p refl runs in
      let kept = run-InOrder seconds r.actions p r.outcome r.ran in
      let events = in_flight p ++ r.outcome.fired in
      let all_forwarded : events ≡ r.outcome.forwarded =
        ap (λ xs. xs ++ r.outcome.fired)
          (sym (append-nil (in_flight p))
            ∙ ap (λ xs. in_flight p ++ xs) (sym (IsRunning-given_up p.phase runs)))
        ∙ kept.order
        ∙ rw (r.empty, r.waits) (append-nil r.outcome.forwarded) in
      let queued : r.outcome.pipeline.queue ≡ forward_scheduled_fires now events p.queue =
        r.queued ∙ ap (λ xs. forward_scheduled_fires now xs p.queue) (sym all_forwarded) in
      let fits : p.queue.next_id + length events ≤ max_int64 =
        omega (arith, length-append (in_flight p) r.outcome.fired, r.bounded) in
      (
        r.actions,
        r.outcome,
        r.ran,
        record {
          waits = r.waits;
          empty = r.empty;
          forwarded = sym all_forwarded;
          gained =
              subst (λ q. All (Gained p.queue q) events) (sym queued)
                (forward-Gained now events p.queue valid fits);
          count =
              ap Todo.len queued ∙ (forward_scheduled_fires_lem now events p.queue valid fits).1;
        },
      )
