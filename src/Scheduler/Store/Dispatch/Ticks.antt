-- ===== src/Scheduler/Store/Dispatch/Ticks.antt =====
-- Run over many ticks: a task that does not repeat is sent once at most.
use miss_raspberry_agent.Prelude.{
  if◌then◌else◌, Bool-cases, Option-cases, is_some, ltb_ℤ, ℕ_eq, ℤ_eq, ℕ, zero, suc, ◌+◌, ◌≤◌, ◌≡◌,
  sym, subst, inl, inr, false, Option, none, some, List, [], ◌∷◌, ◌++◌, arith, Text, text_eq,
  text_eq_iff, text_eq_inst,
}
use miss_raspberry_agent.Prelude.Table
use miss_raspberry_agent.Prelude.Table.{get-put, get-delete}
use miss_raspberry_agent.Prelude.Table.Entries.{All-get}
use miss_raspberry_agent.Scheduler.Calendar.{Time, unix}
use miss_raspberry_agent.Scheduler.Store.{
  Task, Store, due, advance, fire, dispatch_each, dispatch, run_ticks,
}
use miss_raspberry_agent.Scheduler.Store.Laws.{KeyedEntry}
use miss_raspberry_agent.Scheduler.Store.Dispatch.Reachable.{
  IsSound, fire-IsSound, dispatch_each-IsSound, Reachable, Reachable-IsSound,
}

-- How often a task of the id is sent.
abbrev pub count_sent : Text → List Task → ℕ
count_sent id [] = 0
count_sent id (t ∷ ts) = (if text_eq t.id id then 1 else 0) + count_sent id ts

-- Whether a task stands under the id.
abbrev pub standing : Text → Store → ℕ
standing id s = if is_some (Table.get id s.tasks) then 1 else 0

-- No task that repeats stands under the id.
abbrev pub IsSingle : Text → Store → Type 0
IsSingle id s = (t : Task) → Table.get id s.tasks ≡ some t → t.repeat ≡ false

advance-single : (now : Time) (t : Task) → t.repeat ≡ false → advance now t ≡ none
unfolding advance
advance-single now t single = ground (arith, single)

-- What firing does to the id: the sends and what stands afterwards are no more than what stood.
pub record Once (id : Text) (s s' : Store) (sent : List Task) : Type 0 where
  pub single : IsSingle id s'
  pub bound : count_sent id sent + standing id s' ≤ standing id s

abbrev pub events : Option Task → List Task
events none = []
events (some t) = t ∷ []

module _ (id : Text) (now : Time) (s : Store) (v : IsSound s) (one : IsSingle id s) (cur : Task)
    (stored : Table.get cur.id s.tasks ≡ some cur) where
  deleted-Once : Once id s (record s { tasks = Table.delete cur.id s.tasks }) (cur ∷ [])
  deleted-Once = record {
    single = λ t found. ground (arith, get-delete cur.id id s.tasks v.valid.unique, one t);
    bound =
        ground (arith, get-delete cur.id id s.tasks v.valid.unique, text_eq_iff cur.id id, stored);
  }

  other : (later : Task) → advance now cur ≡ some later → text_eq cur.id id ≡ false
  other later from = elim (Bool-cases (text_eq cur.id id)) [
    | inr differs ↦ differs
    | inl same ↦
        let at_id : Table.get id s.tasks ≡ some cur =
          subst (λ i. Table.get i s.tasks ≡ some cur) ((text_eq_iff cur.id id).0 same) stored in
        absurd (ground (arith, advance-single now cur (one cur at_id), from))
  ]

  advanced-Once :
      (later : Task)
      → advance now cur ≡ some later
      → Once id s (record s { tasks = Table.put cur.id later s.tasks }) (cur ∷ [])
  advanced-Once later from = record {
    single = λ t found. ground (arith, get-put cur.id id later s.tasks, other later from, one t);
    bound = ground (arith, get-put cur.id id later s.tasks, other later from);
  }

pub fire-Once :
    (id : Text) (now : Time) (t : Task) (s : Store)
    → IsSound s
    → IsSingle id s
    → Once id s (fire now t s).0 (events (fire now t s).1)
unfolding fire
fire-Once id now t s v one = elim (Option-cases (Table.get t.id s.tasks)) [
  | inl absent ↦ rw (absent, fire) (record { single = one; bound = omega arith })
  | inr (cur, found) ↦
      let key : cur.id ≡ t.id = All-get KeyedEntry t.id cur s.tasks v.valid.keyed found in
      let stored : Table.get cur.id s.tasks ≡ some cur =
        subst (λ i. Table.get i s.tasks ≡ some cur) (sym key) found in
      elim (Bool-cases (ltb_ℤ (unix now) cur.next_run_at)) [
        | inl early ↦ rw (found, early, fire) (record { single = one; bound = omega arith })
        | inr reached ↦ elim (Option-cases (advance now cur)) [
          | inl done ↦ rw (found, reached, done, fire) (deleted-Once id now s v one cur stored)
          | inr (later, from) ↦
              rw (found, reached, from, fire) (advanced-Once id now s v one cur stored later from)
        ]
      ]
]

Once-trans :
    (id : Text) (s s' s'' : Store) (event : Option Task) (sent : List Task)
    → Once id s s' (events event)
    → Once id s' s'' sent
    → Once id s s'' (events event ++ sent)
Once-trans id s s' s'' none sent a b = record {
  single = b.single;
  bound = omega (arith, a.bound, b.bound);
}
Once-trans id s s' s'' (some t) sent a b = record {
  single = b.single;
  bound = omega (arith, a.bound, b.bound);
}

dispatch_each-Once :
    (id : Text) (room : ℕ) (now : Time) (ts : List Task) (s : Store)
    → IsSound s
    → IsSingle id s
    → (let d = dispatch_each room now ts s in Once id s d.store d.sent)
unfolding dispatch_each
dispatch_each-Once id room now [] s v one = record { single = one; bound = omega arith }
dispatch_each-Once id zero now (t ∷ ts) s v one =
    let fired = fire-Once id now t s v one in
    let s' = (fire now t s).0 in
    let sound = fire-IsSound now t s v in
    elim (Option-cases (fire now t s).1) [
      | inl passed ↦
          let before = subst (λ e. Once id s s' (events e)) passed fired in
          let after = dispatch_each-Once id zero now ts s' sound before.single in
          rw (passed, dispatch_each) (Once-trans id s s' _ none _ before after)
      | inr (event, sends) ↦
          let before = subst (λ e. Once id s s' (events e)) sends fired in
          rw (sends, dispatch_each)
            (record { single = before.single; bound = omega (arith, before.bound) })
    ]
dispatch_each-Once id (suc room) now (t ∷ ts) s v one =
    let fired = fire-Once id now t s v one in
    let s' = (fire now t s).0 in
    let sound = fire-IsSound now t s v in
    elim (Option-cases (fire now t s).1) [
      | inl passed ↦
          let before = subst (λ e. Once id s s' (events e)) passed fired in
          let after = dispatch_each-Once id (suc room) now ts s' sound before.single in
          rw (passed, dispatch_each) (Once-trans id s s' _ none _ before after)
      | inr (event, sends) ↦
          let before = subst (λ e. Once id s s' (events e)) sends fired in
          let after = dispatch_each-Once id room now ts s' sound before.single in
          rw (sends, dispatch_each) (Once-trans id s s' _ (some event) _ before after)
    ]

pub count_sent-append :
    (id : Text) (xs ys : List Task) → count_sent id (xs ++ ys) ≡ count_sent id xs + count_sent id ys
count_sent-append id [] ys = omega arith
count_sent-append id (x ∷ xs) ys = omega (arith, count_sent-append id xs ys)

run_ticks-Once :
    (id : Text) (ticks : List (ℕ × Time)) (s : Store)
    → IsSound s
    → IsSingle id s
    → count_sent id (run_ticks ticks s).1 + standing id (run_ticks ticks s).0 ≤ standing id s
unfolding run_ticks dispatch
run_ticks-Once id [] s v one = omega arith
run_ticks-Once id ((room, now) ∷ ticks) s v one =
    let d = dispatch room now s in
    let here = dispatch_each-Once id room now (due now s) s v one in
    let sound = dispatch_each-IsSound room now (due now s) s v in
    let later = run_ticks-Once id ticks d.store sound here.single in
    elim (Bool-cases d.open_ctx) [
      | inl goes_on ↦
          rw (goes_on, run_ticks)
            (omega
              (arith, count_sent-append id d.sent (run_ticks ticks d.store).1, here.bound, later))
      | inr ended ↦ rw (ended, run_ticks) here.bound
    ]

-- From any reachable store, and through any ticks of the scheduler, with any numbers of sends that go
-- through, a task that does not repeat is sent once at most, and of an id without a task none is sent.
pub run_ticks_once :
    (s : Store) (ticks : List (ℕ × Time)) (id : Text)
    → Reachable s
    → IsSingle id s
    → count_sent id (run_ticks ticks s).1 ≤ (if is_some (Table.get id s.tasks) then 1 else 0)
run_ticks_once s ticks id reached one =
    omega (arith, run_ticks-Once id ticks s (Reachable-IsSound s reached) one)
