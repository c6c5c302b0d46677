-- ===== src/Agent/Loop/Failing.antt =====
-- A drain whose rounds all fail.
use miss_raspberry_agent.Prelude.{
  leb, ℤ, ℕ_eq, ℤ_eq, ℕ, zero, suc, ◌+◌, ◌-◌, ◌≤◌, ◌<◌, ◌≡◌, refl, ap, ◌∙◌, true, false, some, List,
  ◌∷◌, arith, Text, text_eq_inst,
}
use miss_raspberry_agent.Todo
use miss_raspberry_agent.Todo.{Item}
use mathlib.Core.List.{mem-cons_self}
use miss_raspberry_agent.Prelude.Table.Entries.{length-delete}
use miss_raspberry_agent.Todo.Laws.{IsValid}
use miss_raspberry_agent.Todo.Order.{stored}
use miss_raspberry_agent.Agent.Loop.Drain.{slept, slept-wakes}
use miss_raspberry_agent.Agent.History.{Message}
use miss_raspberry_agent.Agent.Loop.{
  Agent, Run, Drained, failed, Polled, last_error, sent_history, run_once, give_up, drain_from,
  drain_todo_list, set_current_source_from_queue, wakes, poll,
}

module _ {W : Type 0} (local_time : ℤ → Text) (runner : W → Todo.Store → List Message → Run W)
    (e : Text)
    (fails : (w : W) (todo : Todo.Store) (h : List Message)
      → last_error (runner w todo h).events ≡ some e)
    (idle : (w : W) (todo : Todo.Store) (h : List Message) → (runner w todo h).todo ≡ todo) where
  len-complete :
      (s : Todo.Store) (item : Item) (items : List Item)
      → IsValid s
      → Todo.list s ≡ item ∷ items
      → Todo.len (Todo.complete item.id s).0 + 1 ≡ Todo.len s
  unfolding Todo.complete Todo.len
  len-complete s item items v first =
      let found = stored s v item (rw first mem-cons_self) in
      rw (found, Todo.complete) (length-delete item.id item s.items found)

  failing_round :
      (a : Agent W)
      → ((run_once local_time runner a).1 ≡ some e)
        × ((run_once local_time runner a).0.todo ≡ a.todo)
        × ((run_once local_time runner a).0.history ≡ a.history)
  unfolding run_once
  failing_round a =
      let h = sent_history local_time runner a in
      (
        ground (arith, fails a.world a.todo h),
        ground (arith, fails a.world a.todo h, idle a.world a.todo h),
        ground (arith, fails a.world a.todo h),
      )

  give_up-first :
      (a : Agent W) (item : Item) (items : List Item)
      → Todo.list a.todo ≡ item ∷ items
      → ((give_up local_time runner a).1 ≡ some item.id)
        × ((give_up local_time runner a).0.todo ≡ (Todo.complete item.id a.todo).0)
        × ((give_up local_time runner a).0.history ≡ a.history)
  unfolding give_up
  give_up-first a item items first = (ground arith, ground arith, ground arith)

  -- How the drain ends that gives up on the first item.
  pub record GivesUp (a : Agent W) (item : Item) (d : Drained W) : Type 0 where
    pub ending : d.ending ≡ failed (some item.id)
    pub todo : d.agent.todo ≡ (Todo.complete item.id a.todo).0
    pub history : d.agent.history ≡ a.history

  drain_from_failing :
      (left fuel rounds rewakes : ℕ) (a : Agent W) (item : Item) (items : List Item)
      → left ≤ 4
      → left < fuel
      → Todo.list a.todo ≡ item ∷ items
      → (d : Drained W) × (drain_from local_time runner fuel rounds rewakes (4 - left) a ≡ some d)
        × (d.rounds ≡ rounds + left + 1)
        × GivesUp a item d
  unfolding drain_from
  drain_from_failing left zero rounds rewakes a item items few enough first = absurd (omega arith)
  drain_from_failing zero (suc fuel) rounds rewakes a item items few enough first =
      let (bad, same_todo, same_history) = failing_round a in
      let a' = (run_once local_time runner a).0 in
      let (named, removed, kept) = give_up-first a' item items (ap Todo.list same_todo ∙ first) in
      (
        record {
          agent = (give_up local_time runner a').0;
          ending = failed (give_up local_time runner a').1;
          rounds = rounds + 1;
        },
        rw (bad, drain_from) refl,
        omega arith,
        record {
          ending = ap failed named;
          todo = removed ∙ ap (λ s. (Todo.complete item.id s).0) same_todo;
          history = kept ∙ same_history;
        },
      )
  drain_from_failing (suc left) (suc fuel) rounds rewakes a item items few enough first =
      let (bad, same_todo, same_history) = failing_round a in
      let a' = (run_once local_time runner a).0 in
      let (d, ended, count, gives_up) =
        drain_from_failing left fuel (rounds + 1) rewakes a' item items (omega arith) (omega arith)
          (ap Todo.list same_todo ∙ first) in
      let more : 4 - suc left + 1 ≡ 4 - left = omega arith in
      let retries : leb 5 (4 - suc left + 1) ≡ false = ground arith in
      (
        d,
        rw (bad, retries, more, drain_from) ended,
        omega (arith, count),
        record {
          ending = gives_up.ending;
          todo = gives_up.todo ∙ ap (λ s. (Todo.complete item.id s).0) same_todo;
          history = gives_up.history ∙ same_history;
        },
      )

  -- When every round of the runner fails and leaves the queue alone, a drain of a queue that is not
  -- empty ends after five rounds with the queue's first item completed and the history unchanged.
  drain_todo_list_failing :
      (a : Agent W) (item : Item) (items : List Item)
      → Todo.list a.todo ≡ item ∷ items
      → (d : Drained W) × (drain_todo_list local_time runner a ≡ some d)
        × (d.rounds ≡ 5)
        × GivesUp a item d
  unfolding drain_todo_list
  drain_todo_list_failing a item items first =
      drain_from_failing 4 30 0 0 a item items (omega arith) (omega arith) first

  same_queue : (a : Agent W) → (set_current_source_from_queue local_time runner a).todo ≡ a.todo
  unfolding set_current_source_from_queue
  same_queue a = ground arith

  -- When every round of the runner fails and leaves the queue alone, one turn of Run's loop removes one
  -- item of a valid queue that is due for a drain, and then sleeps: however many items are left, the
  -- loop does not wake the agent for them.
  pub poll_failing :
      (p : Polled W) (item : Item) (items : List Item)
      → IsValid p.agent.todo
      → wakes local_time runner p ≡ true
      → Todo.list p.agent.todo ≡ item ∷ items
      → (q : Polled W) × (poll local_time runner p ≡ some q)
        × (Todo.len q.agent.todo + 1 ≡ Todo.len p.agent.todo)
        × (wakes local_time runner q ≡ false)
  unfolding poll
  poll_failing p item items v awake first =
      let a = set_current_source_from_queue local_time runner p.agent in
      let (d, ended, _, gives_up) =
        drain_todo_list_failing a item items (ap Todo.list (same_queue p.agent) ∙ first) in
      let left : d.agent.todo ≡ (Todo.complete item.id p.agent.todo).0 =
        gives_up.todo ∙ ap (λ s. (Todo.complete item.id s).0) (same_queue p.agent) in
      (
        slept local_time runner p d,
        rw (awake, ended) refl,
        omega (arith, ap Todo.len left, len-complete p.agent.todo item items v first),
        slept-wakes local_time runner p d,
      )
