-- ===== src/App/Pipeline/Fifo.antt =====
-- What becomes of fired tasks, in the order in which they were fired: forwarded, in flight, or given up.
use miss_raspberry_agent.Prelude.{
  ltb, ltb→lt, Bool-cases, length, length-append, ℤ, ℕ, ◌≤◌, ◌≡◌, refl, sym, ap, ◌∙◌, subst, inl,
  inr, Option, none, some, List, [], ◌∷◌, ◌++◌, arith, Text,
}
use mathlib.Core.List.{append_assoc, append-nil}
use miss_raspberry_agent.Scheduler.Calendar.{Time}
use miss_raspberry_agent.Scheduler.Store.{Task, Store, fire}
use miss_raspberry_agent.App.Pipeline.{
  Phase, waiting, looping, sending, ended, Pipeline, Action, ticks, turns, sends, gives_up,
  forwards, schedules, cancels, adds, completes, Outcome, fires_capacity, quiet, tick_at, turned,
  turn_at, send_at, give_up_at, forward_from, act, run, joined,
}
use miss_raspberry_agent.App.Pipeline.Runs.{Ensures, Ensures-found, run_cons}

-- The event that the scheduler waits to send, if any
abbrev pub held : Phase → List Task
held waiting = []
held (looping now ts) = []
held (sending now event ts) = event ∷ []
held (ended lost) = []

-- The event whose send the scheduler gave up when it ended, if any: dispatch drops it.
abbrev pub given_up : Phase → List Task
given_up waiting = []
given_up (looping now ts) = []
given_up (sending now event ts) = []
given_up (ended none) = []
given_up (ended (some event)) = event ∷ []

-- What was fired and can still be forwarded, the oldest first
abbrev pub in_flight : Pipeline → List Task
in_flight p = p.fires ++ held p.phase

abbrev pub unforwarded : Pipeline → List Task
unforwarded p = in_flight p ++ given_up p.phase

-- First in, first out, in a channel that does not grow past its capacity.
pub record InOrder (p : Pipeline) (o : Outcome) : Type 0 where
  pub order : unforwarded p ++ o.fired ≡ o.forwarded ++ unforwarded o.pipeline
  pub fits : length p.fires ≤ fires_capacity → length o.pipeline.fires ≤ fires_capacity

-- Where nothing is fired or forwarded, the channel stays as it is, and so does what is held.
still :
    (p q : Pipeline)
    → p.fires ≡ q.fires
    → held p.phase ++ given_up p.phase ≡ held q.phase ++ given_up q.phase
    → InOrder p (quiet q)
still p q same_fires same_held = record {
  order =
      append-nil (unforwarded p)
      ∙ append_assoc p.fires (held p.phase) (given_up p.phase)
      ∙ ap (λ xs. p.fires ++ xs) same_held
      ∙ ap (λ xs. xs ++ (held q.phase ++ given_up q.phase)) same_fires
      ∙ sym (append_assoc q.fires (held q.phase) (given_up q.phase));
  fits = λ h. rw (sym same_fires) h;
}

tick-InOrder :
    (ph : Phase) (now : Time) (p : Pipeline) → p.phase ≡ ph → Ensures (InOrder p) (tick_at ph now p)
unfolding tick_at
tick-InOrder waiting now p at = still p _ refl (rw at refl)
tick-InOrder (looping moment ts) now p at = tt
tick-InOrder (sending moment event ts) now p at = tt
tick-InOrder (ended lost) now p at = tt

turned-InOrder :
    (now : Time) (ts : List Task) (s : Store) (event : Option Task) (p : Pipeline)
    → held p.phase ≡ []
    → given_up p.phase ≡ []
    → InOrder p (turned now ts s event p)
unfolding turned
turned-InOrder now ts s none p empty empty' = still p _ refl (rw (empty, empty') refl)
turned-InOrder now ts s (some event) p empty empty' = record {
  order =
      rw (empty, empty')
        (rw (append-nil p.fires)
          (rw (append-nil p.fires) (sym (append-nil (p.fires ++ event ∷ [])))));
  fits = λ h. h;
}

turn-InOrder : (ph : Phase) (p : Pipeline) → p.phase ≡ ph → Ensures (InOrder p) (turn_at ph p)
unfolding turn_at
turn-InOrder waiting p at = tt
turn-InOrder (looping now []) p at = still p _ refl (rw at refl)
turn-InOrder (looping now (t ∷ ts)) p at =
    turned-InOrder now ts (fire now t p.tasks).0 (fire now t p.tasks).1 p (rw at refl) (rw at refl)
turn-InOrder (sending now event ts) p at = tt
turn-InOrder (ended lost) p at = tt

send-InOrder : (ph : Phase) (p : Pipeline) → p.phase ≡ ph → Ensures (InOrder p) (send_at ph p)
unfolding send_at
send-InOrder waiting p at = tt
send-InOrder (looping now ts) p at = tt
send-InOrder (ended lost) p at = tt
send-InOrder (sending now event ts) p at = elim (Bool-cases (ltb (length p.fires) fires_capacity)) [
  | inr full ↦ rw full tt
  | inl free ↦ rw free (record {
    order = rw at refl;
    fits = λ h. omega (arith, length-append p.fires (event ∷ []), ltb→lt _ _ free);
  })
]

give_up-InOrder : (ph : Phase) (p : Pipeline) → p.phase ≡ ph → Ensures (InOrder p) (give_up_at ph p)
unfolding give_up_at
give_up-InOrder waiting p at = still p _ refl (rw at refl)
give_up-InOrder (looping now ts) p at = tt
give_up-InOrder (sending now event ts) p at = still p _ refl (rw at refl)
give_up-InOrder (ended lost) p at = tt

forward-InOrder :
    (fires : List Task) (now : ℤ) (p : Pipeline)
    → p.fires ≡ fires
    → Ensures (InOrder p) (forward_from fires now p)
unfolding forward_from
forward-InOrder [] now p at = tt
forward-InOrder (task ∷ fires) now p at = record {
  order = rw at (append-nil ((task ∷ fires ++ held p.phase) ++ given_up p.phase));
  fits = λ h. omega (arith, ap length at);
}

module _ (seconds : ℕ → Text) where
  act-InOrder : (a : Action) (p : Pipeline) → Ensures (InOrder p) (act seconds a p)
  unfolding act
  act-InOrder (ticks now) p = tick-InOrder p.phase now p refl
  act-InOrder turns p = turn-InOrder p.phase p refl
  act-InOrder sends p = send-InOrder p.phase p refl
  act-InOrder gives_up p = give_up-InOrder p.phase p refl
  act-InOrder (forwards now) p = forward-InOrder p.fires now p refl
  act-InOrder (schedules content sch src now) p = still p _ refl refl
  act-InOrder (cancels id) p = still p _ refl refl
  act-InOrder (adds now item) p = still p _ refl refl
  act-InOrder (completes id) p = still p _ refl refl

  InOrder-joined :
      (p : Pipeline) (first later : Outcome)
      → InOrder p first
      → InOrder first.pipeline later
      → InOrder p (joined first later)
  InOrder-joined p first later a b = record {
    order =
        sym (append_assoc (unforwarded p) first.fired later.fired)
        ∙ ap (λ xs. xs ++ later.fired) a.order
        ∙ append_assoc first.forwarded (unforwarded first.pipeline) later.fired
        ∙ ap (λ xs. first.forwarded ++ xs) b.order
        ∙ sym (append_assoc first.forwarded later.forwarded (unforwarded later.pipeline));
    fits = λ h. b.fits (a.fits h);
  }

  -- However the goroutines come to run: the events that were in flight, the one given up, if any, and
  -- those fired since, in this order, are those forwarded since, those in flight now, and the one given up, if any,
  -- in this order. In flight are the events in the channel and the one that the scheduler waits to send; an
  -- event is given up when the scheduler ends while it waits to send it. And a channel that is within its
  -- capacity stays so.
  pub run-InOrder :
      (actions : List Action) (p : Pipeline) (o : Outcome)
      → run seconds actions p ≡ some o
      → InOrder p o
  unfolding run
  run-InOrder [] p o ran = subst (InOrder p) (ground (arith, ran)) (still p p refl refl)
  run-InOrder (a ∷ actions) p o ran =
      let (first, later, acted, went_on, same) = run_cons seconds a actions p o ran in
      subst (InOrder p) (sym same) (
        InOrder-joined p first later
          (Ensures-found (InOrder p) (act seconds a p) first acted (act-InOrder a p))
          (run-InOrder actions first.pipeline later went_on))
