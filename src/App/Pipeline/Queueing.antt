-- ===== src/App/Pipeline/Queueing.antt =====
-- What any run keeps of the queue, and which ids its events have.
use miss_raspberry_agent.Prelude.{
  ltb, Bool-cases, length, All, All-append, ℤ, max_int64, ℕ_eq, ℤ_eq, ℕ, suc, ◌+◌, ◌≤◌, ◌<◌, ◌≡◌,
  sym, subst, inl, inr, Option, none, some, List, [], ◌∷◌, arith, Text, codes, text_eq_inst,
}
use miss_raspberry_agent.Prelude.Ids.{IsIssued, inc64-suc}
use miss_raspberry_agent.Prelude.Table.Entries.{All-get}
use miss_raspberry_agent.Todo
use miss_raspberry_agent.Todo.Laws.{IsValid, add-IsValid, complete-IsValid, complete_lem}
use miss_raspberry_agent.Scheduler.Calendar.{Time}
use miss_raspberry_agent.Scheduler.Store.{Task, Store, fire}
use miss_raspberry_agent.Scheduler.Store.Laws.{IssuedEntry}
use miss_raspberry_agent.Scheduler.Store.Dispatch.Reachable.{IsSound}
use miss_raspberry_agent.Agent.Loop.{enqueue_scheduled_task}
use miss_raspberry_agent.App.Pipeline.{
  Phase, waiting, looping, sending, ended, Pipeline, Action, ticks, turns, sends, gives_up,
  forwards, schedules, cancels, adds, completes, Outcome, fires_capacity, quiet, tick_at, turned,
  turn_at, send_at, give_up_at, forward_from, act, run,
}
use miss_raspberry_agent.App.Pipeline.Runs.{Ensures, Ensures-found, run_cons}
use miss_raspberry_agent.App.Pipeline.Tasks.{
  Scheduled, TaskStep, keeps, takes, gains, loses, StepOf, act-StepOf, TaskStep-IsSound,
}
use miss_raspberry_agent.App.Pipeline.Steps.{TaskStep-next_id}
use miss_raspberry_agent.App.Pipeline.Rising.{fire-cases}

-- An action keeps a queue with room valid, and counts by one at most.
abbrev KeepsQueue : Pipeline → Outcome → Type 0
KeepsQueue p o =
    IsValid p.queue
    → p.queue.next_id < max_int64
    → IsValid o.pipeline.queue × (o.pipeline.queue.next_id ≤ p.queue.next_id + 1)

tick-KeepsQueue :
    (ph : Phase) (now : Time) (p : Pipeline) → Ensures (KeepsQueue p) (tick_at ph now p)
unfolding tick_at
tick-KeepsQueue waiting now p = λ v room. (v, omega arith)
tick-KeepsQueue (looping moment ts) now p = tt
tick-KeepsQueue (sending moment event ts) now p = tt
tick-KeepsQueue (ended lost) now p = tt

turned-KeepsQueue :
    (now : Time) (ts : List Task) (s : Store) (event : Option Task) (p : Pipeline)
    → KeepsQueue p (turned now ts s event p)
unfolding turned
turned-KeepsQueue now ts s none p = λ v room. (v, omega arith)
turned-KeepsQueue now ts s (some event) p = λ v room. (v, omega arith)

turn-KeepsQueue : (ph : Phase) (p : Pipeline) → Ensures (KeepsQueue p) (turn_at ph p)
unfolding turn_at
turn-KeepsQueue waiting p = tt
turn-KeepsQueue (looping now []) p = λ v room. (v, omega arith)
turn-KeepsQueue (looping now (t ∷ ts)) p =
    turned-KeepsQueue now ts (fire now t p.tasks).0 (fire now t p.tasks).1 p
turn-KeepsQueue (sending now event ts) p = tt
turn-KeepsQueue (ended lost) p = tt

send-KeepsQueue : (ph : Phase) (p : Pipeline) → Ensures (KeepsQueue p) (send_at ph p)
unfolding send_at
send-KeepsQueue waiting p = tt
send-KeepsQueue (looping now ts) p = tt
send-KeepsQueue (ended lost) p = tt
send-KeepsQueue (sending now event ts) p = elim (Bool-cases (ltb (length p.fires) fires_capacity)) [
  | inr full ↦ rw full tt
  | inl free ↦ rw free (λ v room. (v, omega arith))
]

give_up-KeepsQueue : (ph : Phase) (p : Pipeline) → Ensures (KeepsQueue p) (give_up_at ph p)
unfolding give_up_at
give_up-KeepsQueue waiting p = λ v room. (v, omega arith)
give_up-KeepsQueue (looping now ts) p = tt
give_up-KeepsQueue (sending now event ts) p = λ v room. (v, omega arith)
give_up-KeepsQueue (ended lost) p = tt

next_id-add :
    (now : ℤ) (item : Todo.Item) (s : Todo.Store)
    → s.next_id < max_int64
    → (Todo.add now item s).0.next_id ≡ s.next_id + 1
unfolding Todo.add
next_id-add now item s room = inc64-suc s.next_id room

forward-KeepsQueue :
    (fires : List Task) (now : ℤ) (p : Pipeline) → Ensures (KeepsQueue p) (forward_from fires now p)
unfolding forward_from enqueue_scheduled_task
forward-KeepsQueue [] now p = tt
forward-KeepsQueue (task ∷ fires) now p =
    λ v room. (add-IsValid now _ p.queue v room, omega (arith, next_id-add now _ p.queue room))

act-KeepsQueue :
    (seconds : ℕ → Text) (a : Action) (p : Pipeline) → Ensures (KeepsQueue p) (act seconds a p)
unfolding act
act-KeepsQueue seconds (ticks now) p = tick-KeepsQueue p.phase now p
act-KeepsQueue seconds turns p = turn-KeepsQueue p.phase p
act-KeepsQueue seconds sends p = send-KeepsQueue p.phase p
act-KeepsQueue seconds gives_up p = give_up-KeepsQueue p.phase p
act-KeepsQueue seconds (forwards now) p = forward-KeepsQueue p.fires now p
act-KeepsQueue seconds (schedules content sch src now) p = λ v room. (v, omega arith)
act-KeepsQueue seconds (cancels id) p = λ v room. (v, omega arith)
act-KeepsQueue seconds (adds now item) p = λ v room.
    (add-IsValid now item p.queue v room, omega (arith, next_id-add now item p.queue room))
act-KeepsQueue seconds (completes id) p =
    λ v room. (complete-IsValid id p.queue v, omega (arith, (complete_lem id p.queue v).2))

-- A run keeps the queue valid, and its counter counts the actions at most.
pub run-queue :
    (seconds : ℕ → Text) (actions : List Action) (p : Pipeline) (o : Outcome)
    → IsValid p.queue
    → p.queue.next_id + length actions ≤ max_int64
    → run seconds actions p ≡ some o
    → IsValid o.pipeline.queue × (o.pipeline.queue.next_id ≤ p.queue.next_id + length actions)
unfolding run
run-queue seconds [] p o v room ran =
    let same : quiet p ≡ o = ground (arith, ran) in
    subst
      (λ (out : Outcome).
        IsValid out.pipeline.queue × (out.pipeline.queue.next_id ≤ p.queue.next_id + 0))
      same (v, omega arith)
run-queue seconds (a ∷ actions) p o v room ran =
    let (first, later, acted, went_on, same) = run_cons seconds a actions p o ran in
    let (v', counted) =
      Ensures-found (KeepsQueue p) (act seconds a p) first acted (act-KeepsQueue seconds a p) v
        (omega arith) in
    let (v'', counted') =
      run-queue seconds actions first.pipeline later v' (omega (arith, counted)) went_on in
    subst
      (λ (out : Outcome).
        IsValid out.pipeline.queue
        × (out.pipeline.queue.next_id ≤ p.queue.next_id + suc (length actions)))
      (sym same) (v'', omega (arith, counted', counted))

-- The ids of these events were given out.
abbrev pub IssuedIds : ℕ → List Task → Type 0
IssuedIds n = All (λ (e : Task). IsIssued (codes "task-") n e.id)

IssuedIds-later : (m n : ℕ) (events : List Task) → m ≤ n → IssuedIds m events → IssuedIds n events
IssuedIds-later m n [] le h = tt
IssuedIds-later m n (e ∷ events) le h = (
  record { call = h.0.call; named = h.0.named; in_range = omega (arith, h.0.in_range) },
  IssuedIds-later m n events le h.1,
)

TaskStep-IssuedIds :
    (seconds : ℕ → Text) (s s' : Store) (fired : List Task)
    → TaskStep seconds s s' fired
    → IsSound s
    → IssuedIds s.next_id fired
TaskStep-IssuedIds seconds s s' fired (keeps same none_fired) v = rw none_fired tt
TaskStep-IssuedIds seconds s s' fired (gains content sch src now times same none_fired) v =
    rw none_fired tt
TaskStep-IssuedIds seconds s s' fired (loses id same none_fired) v = rw none_fired tt
TaskStep-IssuedIds seconds s s' fired (takes now t same as_fired) v =
    rw as_fired (elim (fire-cases now t s v) [
      | inl (no_event, kept) ↦ rw no_event tt
      | inr (cur, event, stored, _, done) ↦
          rw event (All-get (IssuedEntry s.next_id) cur.id cur s.tasks v.valid.issued stored, tt)
    ])

-- Each event of a run has an id that was given out by the end of the run.
pub run-IssuedIds :
    (seconds : ℕ → Text) (actions : List Action) (p : Pipeline) (o : Outcome)
    → All Scheduled actions
    → IsSound p.tasks
    → p.tasks.next_id + length actions ≤ max_int64
    → run seconds actions p ≡ some o
    → (p.tasks.next_id ≤ o.pipeline.tasks.next_id) × IssuedIds o.pipeline.tasks.next_id o.fired
unfolding run
run-IssuedIds seconds [] p o times v room ran =
    let same : quiet p ≡ o = ground (arith, ran) in
    subst
      (λ (out : Outcome).
        (p.tasks.next_id ≤ out.pipeline.tasks.next_id)
        × IssuedIds out.pipeline.tasks.next_id out.fired)
      same (omega arith, tt)
run-IssuedIds seconds (a ∷ actions) p o (time, times) v room ran =
    let (first, later, acted, went_on, same) = run_cons seconds a actions p o ran in
    let s' = first.pipeline.tasks in
    let step =
      Ensures-found (StepOf seconds p) (act seconds a p) first acted
        (act-StepOf seconds a p time) in
    let small : p.tasks.next_id < max_int64 = omega arith in
    let counted = TaskStep-next_id seconds p.tasks s' first.fired step small in
    let issued = TaskStep-IssuedIds seconds p.tasks s' first.fired step v in
    let (grown, rest) =
      run-IssuedIds seconds actions first.pipeline later times
        (TaskStep-IsSound seconds p.tasks s' first.fired step v small) (omega (arith, counted.1))
        went_on in
    subst
      (λ (out : Outcome).
        (p.tasks.next_id ≤ out.pipeline.tasks.next_id)
        × IssuedIds out.pipeline.tasks.next_id out.fired)
      (sym same)
      (
        omega (arith, grown, counted.0),
        All-append (λ (e : Task). IsIssued (codes "task-") later.pipeline.tasks.next_id e.id)
            first.fired later.fired
            (IssuedIds-later p.tasks.next_id later.pipeline.tasks.next_id first.fired
              (omega (arith, grown, counted.0)) issued)
            rest,
      )
