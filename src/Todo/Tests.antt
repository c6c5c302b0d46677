-- ===== src/Todo/Tests.antt =====
-- Runs of the todo store at concrete data.
use miss_raspberry_agent.Prelude.{
  pos, max_int64, ℕ_eq, ℤ_eq, ◌<◌, ◌≡◌, refl, none, List, [], ◌∷◌, ◌++◌, map, arith, format_int,
  codes, text_eq, text_eq_inst,
}
use mathlib.Core.List.{Perm}
use mathlib.Core.List.Perm
use miss_raspberry_agent.Prelude.Table
use miss_raspberry_agent.Prelude.Sorting.{sort_by}
use miss_raspberry_agent.Prelude.Ids.{numbered}
use miss_raspberry_agent.Todo.{stamped, item_id, Item, Store, new_store, add, list, item_less}
use miss_raspberry_agent.Todo.Laws.{IsValid, IsValid-new_store, add-IsValid}
use miss_raspberry_agent.Todo.Refinement.{
  Operation, adds, lists, asks_empty, completes, Allowed, perform_all, perform_all_refines,
}
use miss_raspberry_agent.Todo.History.{Call, add_call, complete_call}
use miss_raspberry_agent.Todo.Tool.{TodoListInput, run_todo_list, run_todo_list_lem, TodoAnswer}

abbrev reply_item : Item
reply_item = record {
  id = [];
  content = codes "answer Alice";
  context = [];
  source = codes "chat";
  target_type = codes "private";
  target_id = pos 7;
  user_id = pos 7;
  created_at = pos 0;
}

abbrev one_item : Store
one_item = (add (pos 100) reply_item new_store).0

abbrev two_items : Store
two_items = (add (pos 90) reply_item one_item).0

one_item-IsValid : IsValid one_item
one_item-IsValid = add-IsValid (pos 100) reply_item new_store IsValid-new_store (omega arith)

one_item-room : one_item.next_id < max_int64
unfolding add
one_item-room = omega arith

two_items-IsValid : IsValid two_items
two_items-IsValid = add-IsValid (pos 90) reply_item one_item one_item-IsValid one_item-room

abbrev swapped : Store
swapped = record two_items { items = elim two_items.items [ [] ↦ [] | x ∷ xs ↦ xs ++ x ∷ [] ] }

swapped_perm : Perm two_items.items swapped.items
unfolding add Table.put text_eq stamped item_id numbered format_int
swapped_perm = Perm.swap _ _ _

abbrev three_calls : List Call
three_calls =
    add_call (pos 100) reply_item
    ∷ complete_call (codes "item-1")
    ∷ add_call (pos 101) reply_item
    ∷ []

abbrev complete_input : TodoListInput
complete_input = record { action = codes "complete"; content = []; id = codes "item-1" }

two_items-room : two_items.next_id < max_int64
unfolding add
two_items-room = omega arith

run_todo_list_lem_example :
    TodoAnswer complete_input two_items (run_todo_list (pos 5) complete_input two_items)
run_todo_list_lem_example =
    run_todo_list_lem (pos 5) complete_input two_items two_items-IsValid two_items-room

-- The later call stands first: its item is the older one.
list-two_items : map (λ (item : Item). item.created_at) (list two_items) ≡ pos 90 ∷ pos 100 ∷ []
unfolding list add item_less sort_by Table.values Table.put text_eq stamped item_id numbered
    format_int
list-two_items = refl

abbrev some_operations : List Operation
some_operations = adds (pos 5) reply_item ∷ lists ∷ completes (codes "item-1") ∷ asks_empty ∷ []

perform_all_refines_example :
    Allowed (λ id. none) some_operations (perform_all some_operations new_store)
perform_all_refines_example = perform_all_refines some_operations (omega arith)
