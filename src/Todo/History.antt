-- ===== src/Todo/History.antt =====
-- Whole histories of a todo store: what producers, the HTTP API and the agent may do to it.
use miss_raspberry_agent.Prelude.{
  length, ℤ, max_int64, ℕ_eq, ℤ_eq, ◌+◌, ◌≤◌, ◌<◌, List, [], ◌∷◌, arith, Text, text_eq_inst,
}
use miss_raspberry_agent.Todo.{Item, Store, new_store, add, complete}
use miss_raspberry_agent.Todo.Laws.{IsValid, IsValid-new_store, add-IsValid, complete-IsValid}

-- A call that changes the store; `add` carries the clock's answer.
pub data Call : Type 0 where
  add_call : ℤ → Item → Call
  complete_call : Text → Call

unfoldable pub run_call : Call → Store → Store
run_call (add_call now item) s = (add now item s).0
run_call (complete_call id) s = (complete id s).0

unfoldable pub run_calls : List Call → Store → Store
unfolding run_call
run_calls [] s = s
run_calls (c ∷ cs) s = run_calls cs (run_call c s)

next_id-run_call :
    (c : Call) (s : Store) → s.next_id < max_int64 → (run_call c s).next_id ≤ s.next_id + 1
unfolding run_call add complete
next_id-run_call (add_call now item) s h = omega arith
next_id-run_call (complete_call id) s h = ground arith

run_call-IsValid :
    (c : Call) (s : Store) → IsValid s → s.next_id < max_int64 → IsValid (run_call c s)
unfolding run_call
run_call-IsValid (add_call now item) s v h = add-IsValid now item s v h
run_call-IsValid (complete_call id) s v h = complete-IsValid id s v

run_calls-IsValid_of :
    (cs : List Call) (s : Store)
    → IsValid s
    → s.next_id + length cs ≤ max_int64
    → IsValid (run_calls cs s)
unfolding run_calls
run_calls-IsValid_of [] s v h = v
run_calls-IsValid_of (c ∷ cs) s v h =
    run_calls-IsValid_of cs (run_call c s) (run_call-IsValid c s v (omega arith))
      (omega (arith, next_id-run_call c s))

-- Every history of fewer than 2^63 calls from an empty store leaves it valid: each key is its item's
-- own id, no key stands twice, and all ids come from earlier calls of Add.
run_calls-IsValid : (cs : List Call) → length cs ≤ max_int64 → IsValid (run_calls cs new_store)
run_calls-IsValid cs h = run_calls-IsValid_of cs new_store IsValid-new_store (omega arith)
