-- ===== src/Todo/Tool.antt =====
-- internal/tool/todo/tool.go: the `todo_list` tool.
use miss_raspberry_agent.Prelude.{
  if◌then◌else◌, Bool-cases, ℤ, pos, max_int64, ℕ_eq, ℤ_eq, ◌<◌, ◌≡◌, refl, sym, subst, inl, inr,
  true, false, Option, none, some, List, [], arith, Text, codes, text_eq, text_eq_iff, text_eq_inst,
  is_empty, Result, ok, err,
}
use miss_raspberry_agent.Prelude.Table
use miss_raspberry_agent.Prelude.Table.Entries.{All-get}
use miss_raspberry_agent.Todo.{Item, Store, add, list, complete}
use miss_raspberry_agent.Todo.Laws.{IsValid, add-IsValid, complete-IsValid, add_lem, complete_lem}

pub record TodoListInput : Type 0 where
  pub action : Text
  pub content : Text
  pub id : Text

-- The texts that the tool answers with, each with the id that it names.
pub data Message : Type 0 where
  no_message : Message
  added : Text → Message
  missing : Text → Message
  completed : Text → Message

pub record TodoListOutput : Type 0 where
  pub items : List Item
  pub message : Message

pub data Error : Type 0 where
  content_required id_required : Error
  unknown_action : Text → Error

abbrev blank : Text → Item
blank content = record {
  id = [];
  content = content;
  context = [];
  source = [];
  target_type = [];
  target_id = pos 0;
  user_id = pos 0;
  created_at = pos 0;
}

answer_complete : Text → Store × Option Item → Store × TodoListOutput
answer_complete id (s, none) = (s, record { items = list s; message = missing id })
answer_complete id (s, some item) = (s, record { items = list s; message = completed item.id })

run_add : ℤ → Text → Store → Store × Result Error TodoListOutput
run_add now content s =
    let (s', item) = add now (blank content) s in
    (s', ok (record { items = list s'; message = added item.id }))

run_complete : Text → Store → Store × Result Error TodoListOutput
unfolding answer_complete
run_complete id s = let (s', out) = answer_complete id (complete id s) in (s', ok out)

-- RunTodoList
unfoldable pub run_todo_list : ℤ → TodoListInput → Store → Store × Result Error TodoListOutput
unfolding run_add run_complete
run_todo_list now input s =
    if text_eq input.action (codes "list")
    then (s, ok (record { items = list s; message = no_message }))
    else if text_eq input.action (codes "add")
    then (if is_empty input.content then (s, err content_required) else run_add now input.content s)
    else if text_eq input.action (codes "complete")
    then (if is_empty input.id then (s, err id_required) else run_complete input.id s)
    else (s, err (unknown_action input.action))

-- What a message tells of the call and of the store before and after it.
abbrev pub Tells : TodoListInput → Store → Store → Message → Type 0
Tells input s s' no_message = (input.action ≡ codes "list") × (s' ≡ s)
Tells input s s' (added id) =
    (item : Item) × (input.action ≡ codes "add")
    × (is_empty input.content ≡ false)
    × (item.content ≡ input.content)
    × (Table.get id s.items ≡ none)
    × ((j : Text)
        → Table.get j s'.items ≡ (if text_eq id j then some item else Table.get j s.items))
Tells input s s' (missing id) =
    (input.action ≡ codes "complete") × (id ≡ input.id) × (Table.get id s.items ≡ none) × (s' ≡ s)
Tells input s s' (completed id) =
    (item : Item) × (input.action ≡ codes "complete")
    × (id ≡ input.id)
    × (Table.get id s.items ≡ some item)
    × ((j : Text) → Table.get j s'.items ≡ (if text_eq id j then none else Table.get j s.items))

-- Why a call is answered by an error
abbrev pub Fails : TodoListInput → Error → Type 0
Fails input content_required = (input.action ≡ codes "add") × (is_empty input.content ≡ true)
Fails input id_required = (input.action ≡ codes "complete") × (is_empty input.id ≡ true)
Fails input (unknown_action action) =
    (action ≡ input.action)
    × (text_eq input.action (codes "list") ≡ false)
    × (text_eq input.action (codes "add") ≡ false)
    × (text_eq input.action (codes "complete") ≡ false)

-- A reply lists the queue as it is after the call; an error has left the queue as it was.
abbrev pub TodoAnswer : TodoListInput → Store → Store × Result Error TodoListOutput → Type 0
TodoAnswer input s (s', ok out) = (out.items ≡ list s') × Tells input s s' out.message
TodoAnswer input s (s', err e) = (s' ≡ s) × Fails input e

module _ (now : ℤ) (input : TodoListInput) (s : Store) (v : IsValid s) where
  complete_answered :
      (r : Store × Option Item)
      → input.action ≡ codes "complete"
      → r.1 ≡ Table.get input.id s.items
      → ((j : Text)
          → Table.get j r.0.items ≡ (if text_eq input.id j then none else Table.get j s.items))
      → (r.1 ≡ none → r.0 ≡ s)
      → (let (s', out) = answer_complete input.id r in TodoAnswer input s (s', ok out))
  unfolding answer_complete
  complete_answered (s', none) asked found gone still = (refl, (asked, refl, sym found, still refl))
  complete_answered (s', some item) asked found gone still =
      let key : item.id ≡ input.id =
        All-get (λ entry. entry.1.id ≡ entry.0) input.id item s.items v.keyed (sym found) in
      (
        refl,
        (
          item,
          asked,
          key,
          subst (λ id. Table.get id s.items ≡ some item) (sym key) (sym found),
          λ j. rw key (gone j),
        ),
      )

  complete-absent : (complete input.id s).1 ≡ none → (complete input.id s).0 ≡ s
  unfolding complete
  complete-absent h = ground (arith, h)

  run_complete-TodoAnswer :
      input.action ≡ codes "complete" → TodoAnswer input s (run_complete input.id s)
  unfolding run_complete
  run_complete-TodoAnswer asked =
      let (found, gone, _) = complete_lem input.id s v in
      complete_answered (complete input.id s) asked found gone complete-absent

  run_add-TodoAnswer :
      s.next_id < max_int64
      → input.action ≡ codes "add"
      → is_empty input.content ≡ false
      → TodoAnswer input s (run_add now input.content s)
  unfolding run_add
  run_add-TodoAnswer room asked filled =
      let (fresh, content, get) = add_lem now (blank input.content) s v room in
      (refl, ((add now (blank input.content) s).1, asked, filled, content, fresh, get))

  -- On a valid store whose counter has room, what the answer of the tool says is so. A reply lists the queue
  -- as it is after the call. It has no message after a list, which changes nothing. An add with a content
  -- stores an item with that content under an id that was free, which the message names. A complete takes away
  -- the item under the id in the call, which the message names; or there is none, the message says so, and
  -- nothing changes. No other item changes. An error leaves the queue as it was: the content or the id is
  -- empty, or the action is none of these.
  pub run_todo_list_lem : s.next_id < max_int64 → TodoAnswer input s (run_todo_list now input s)
  unfolding run_todo_list
  run_todo_list_lem room = elim (Bool-cases (text_eq input.action (codes "list"))) [
    | inl listing ↦ rw (listing, run_todo_list) (refl, ((text_eq_iff _ _).0 listing, refl))
    | inr unlisted ↦ elim (Bool-cases (text_eq input.action (codes "add"))) [
      | inl adding ↦ elim (Bool-cases (is_empty input.content)) [
        | inl blank ↦
            rw (unlisted, adding, blank, run_todo_list) (refl, ((text_eq_iff _ _).0 adding, blank))
        | inr filled ↦
            rw (unlisted, adding, filled, run_todo_list)
              (run_add-TodoAnswer room ((text_eq_iff _ _).0 adding) filled)
      ]
      | inr unadded ↦ elim (Bool-cases (text_eq input.action (codes "complete"))) [
        | inl completing ↦ elim (Bool-cases (is_empty input.id)) [
          | inl blank ↦
              rw (unlisted, unadded, completing, blank, run_todo_list)
                (refl, ((text_eq_iff _ _).0 completing, blank))
          | inr named ↦
              rw (unlisted, unadded, completing, named, run_todo_list)
                (run_complete-TodoAnswer ((text_eq_iff _ _).0 completing))
        ]
        | inr unknown ↦
            rw (unlisted, unadded, unknown, run_todo_list)
              (refl, (refl, unlisted, unadded, unknown))
      ]
    ]
  ]

  answer_complete-IsValid :
      (r : Store × Option Item) → IsValid r.0 → IsValid (answer_complete input.id r).0
  unfolding answer_complete
  answer_complete-IsValid (s', none) valid = valid
  answer_complete-IsValid (s', some item) valid = valid

  run_complete-IsValid : IsValid (run_complete input.id s).0
  unfolding run_complete
  run_complete-IsValid =
      answer_complete-IsValid (complete input.id s) (complete-IsValid input.id s v)

  -- The tool keeps the queue valid.
  pub run_todo_list-IsValid : s.next_id < max_int64 → IsValid (run_todo_list now input s).0
  unfolding run_todo_list run_add
  run_todo_list-IsValid room = elim (Bool-cases (text_eq input.action (codes "list"))) [
    | inl listing ↦ rw (listing, run_todo_list) v
    | inr unlisted ↦ elim (Bool-cases (text_eq input.action (codes "add"))) [
      | inl adding ↦ elim (Bool-cases (is_empty input.content)) [
        | inl blank ↦ rw (unlisted, adding, blank, run_todo_list) v
        | inr filled ↦
            rw (unlisted, adding, filled, run_todo_list)
              (add-IsValid now (blank input.content) s v room)
      ]
      | inr unadded ↦ elim (Bool-cases (text_eq input.action (codes "complete"))) [
        | inl completing ↦ elim (Bool-cases (is_empty input.id)) [
          | inl nameless ↦ rw (unlisted, unadded, completing, nameless, run_todo_list) v
          | inr named ↦
              rw (unlisted, unadded, completing, named, run_todo_list) run_complete-IsValid
        ]
        | inr unknown ↦ rw (unlisted, unadded, unknown, run_todo_list) v
      ]
    ]
  ]
