-- ===== src/App/Pipeline/Atomic.antt =====
-- dispatch as one step, as Scheduler/Store has it, is one way in which the small steps come.
use miss_raspberry_agent.Prelude.{
  lt→ltb, Option-cases, length, length-append, ℕ, zero, suc, ◌+◌, ◌≤◌, ◌<◌, ◌≡◌, refl, ◌∙◌, inl,
  inr, Option, none, some, List, [], ◌∷◌, ◌++◌, arith, Text,
}
use mathlib.Core.List.{append_assoc, append-nil}
use miss_raspberry_agent.Scheduler.Calendar.{Time}
use miss_raspberry_agent.Scheduler.Store.{Task, Dispatched, due, fire, dispatch_each, dispatch}
use miss_raspberry_agent.App.Pipeline.{
  waiting, looping, sending, Pipeline, Action, ticks, turns, sends, Outcome, fires_capacity, quiet,
  tick_at, turned, turn_at, send_at, act, run,
}
use miss_raspberry_agent.App.Pipeline.Runs.{run-step}

-- What the dispatch does to the pipeline.
abbrev pub after_dispatch : Dispatched → Pipeline → Outcome
after_dispatch d p = record {
  pipeline = record p { tasks = d.store; phase = waiting; fires = p.fires ++ d.sent };
  fired = d.sent;
  forwarded = [];
}

module _ (seconds : ℕ → Text) (now : Time) where
  pub act-turn :
      (t : Task) (ts : List Task) (event : Option Task) (p : Pipeline)
      → p.phase ≡ looping now (t ∷ ts)
      → (fire now t p.tasks).1 ≡ event
      → act seconds turns p ≡ some (turned now ts (fire now t p.tasks).0 event p)
  unfolding act turn_at
  act-turn t ts event p at fires = rw (at, fires) refl

  pub act-last :
      (p : Pipeline)
      → p.phase ≡ looping now []
      → act seconds turns p ≡ some (quiet (record p { phase = waiting }))
  unfolding act turn_at
  act-last p at = rw at refl

  pub act-send :
      (event : Task) (ts : List Task) (p : Pipeline)
      → p.phase ≡ sending now event ts
      → length p.fires < fires_capacity
      → act seconds sends p
        ≡ some (quiet (record p { phase = looping now ts; fires = p.fires ++ event ∷ [] }))
  unfolding act send_at
  act-send event ts p at free = rw (at, lt→ltb _ _ free) refl

  loop_runs :
      (room : ℕ) (ts : List Task) (p : Pipeline)
      → p.phase ≡ looping now ts
      → length ts ≤ room
      → length p.fires + length ts ≤ fires_capacity
      → (actions : List Action) × (run seconds actions p
          ≡ some (after_dispatch (dispatch_each room now ts p.tasks) p))
  unfolding dispatch_each run turned
  loop_runs room [] p at fits free = (
    turns ∷ [],
    run-step seconds turns [] p _ _ (act-last p at) refl ∙ rw (append-nil p.fires) refl,
  )
  loop_runs zero (t ∷ ts) p at fits free = absurd (omega arith)
  loop_runs (suc room) (t ∷ ts) p at fits free =
      let s = (fire now t p.tasks).0 in
      elim (Option-cases (fire now t p.tasks).1) [
        | inl passed ↦
            let q : Pipeline = record p { tasks = s; phase = looping now ts } in
            let (actions, ran) = loop_runs (suc room) ts q refl (omega arith) (omega arith) in
            (
              turns ∷ actions,
              run-step seconds turns actions p (quiet q) _ (act-turn t ts none p at passed) ran
                  ∙ rw (passed, dispatch_each) refl,
            )
        | inr (event, found) ↦
            let q : Pipeline = record p { tasks = s; phase = sending now event ts } in
            let r : Pipeline = record p {
              tasks = s;
              phase = looping now ts;
              fires = p.fires ++ event ∷ [];
            } in
            let (actions, ran) =
              loop_runs room ts r refl (omega arith)
                (omega (arith, length-append p.fires (event ∷ []))) in
            (
              turns ∷ sends ∷ actions,
              run-step seconds turns (sends ∷ actions) p (turned now ts s (some event) p) _
                    (act-turn t ts (some event) p at found)
                    (run-step seconds sends actions q (quiet r) _
                      (act-send event ts q refl (omega arith)) ran)
                  ∙ rw (found, dispatch_each)
                      (rw (append_assoc p.fires (event ∷ []) (dispatch_each room now ts s).sent)
                        refl),
            )
      ]

  -- From a scheduler that waits, there is a run of its own small steps, after a tick, that leaves the
  -- task store, the channel and the events just as dispatch in one step has them, for any number of sends
  -- that is enough for what is due, if the channel has room for it.
  pub dispatch_runs :
      (p : Pipeline) (room : ℕ)
      → p.phase ≡ waiting
      → length (due now p.tasks) ≤ room
      → length p.fires + length (due now p.tasks) ≤ fires_capacity
      → (actions : List Action) × (run seconds actions p
          ≡ some (after_dispatch (dispatch room now p.tasks) p))
  unfolding dispatch act tick_at
  dispatch_runs p room at fits free =
      let q : Pipeline = record p { phase = looping now (due now p.tasks) } in
      let (actions, ran) = loop_runs room (due now p.tasks) q refl fits free in
      (ticks now ∷ actions, run-step seconds (ticks now) actions p (quiet q) _ (rw at refl) ran)
