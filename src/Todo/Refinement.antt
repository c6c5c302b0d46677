-- ===== src/Todo/Refinement.antt =====
-- The todo store against what it promises: a set of items by id, without its counter and its map.
use miss_raspberry_agent.Prelude.{
  ◌==◌, if◌then◌else◌, length, ℤ, pos, ◌==ℤ◌, max_int64, ℕ_eq, ℤ_eq, ℕ, ◌+◌, ◌≤◌, ◌<◌, ◌≡◌, refl,
  sym, subst, ◌↔◌, Bool, true, Option, none, some, List, [], ◌∷◌, map, arith, Text, text_eq,
  text_eq_iff, text_eq_inst,
}
use mathlib.Core.List.{Mem, Nodup}
use mathlib.Core.List.Perm
use miss_raspberry_agent.Prelude.Table
use miss_raspberry_agent.Prelude.Table.Entries.{mem_of_get, Nodup-keys}
use miss_raspberry_agent.Prelude.Sorting.{IsSorted}
use miss_raspberry_agent.Todo.{
  Item, Store, new_store, add, list, complete, is_empty_store, item_less, stamped,
}
use miss_raspberry_agent.Todo.Laws.{
  IsValid, IsValid-new_store, add_lem, complete_lem, add-IsValid, complete-IsValid,
}
use miss_raspberry_agent.Todo.Order.{list_lem, stored}

-- The calls of the store, and what they answer; an Add carries the clock's answer.
pub data Operation : Type 0 where
  adds : ℤ → Item → Operation
  lists asks_empty : Operation
  completes : Text → Operation

pub data Reply : Type 0 where
  added : Item → Reply
  listed : List Item → Reply
  emptiness : Bool → Reply
  completed : Option Item → Reply

unfoldable pub perform : Operation → Store → Store × Reply
perform (adds now item) s = let (s', item') = add now item s in (s', added item')
perform lists s = (s, listed (list s))
perform asks_empty s = (s, emptiness (is_empty_store s))
perform (completes id) s = let (s', item) = complete id s in (s', completed item)

unfoldable pub perform_all : List Operation → Store → List Reply
unfolding perform
perform_all [] s = []
perform_all (op ∷ ops) s = let (s', reply) = perform op s in reply ∷ perform_all ops s'

-- What a client knows of the store: the item under each id.
abbrev pub Board : Type 0
Board = Text → Option Item

-- The item is the requested one, with an id and a time of its creation.
pub record IsStamped (now : ℤ) (item stored : Item) : Type 0 where
  pub content : stored.content ≡ item.content
  pub context : stored.context ≡ item.context
  pub source : stored.source ≡ item.source
  pub target_type : stored.target_type ≡ item.target_type
  pub target_id : stored.target_id ≡ item.target_id
  pub user_id : stored.user_id ≡ item.user_id
  pub created_at : stored.created_at ≡ (if item.created_at ==ℤ pos 0 then now else item.created_at)

-- What the store may answer and how its content may change: Add chooses any free id.
pub data Promises (b : Board) : Operation → Board → Reply → Type 0 where
  promises_add :
      (now : ℤ) (item new : Item) (b' : Board)
      → b new.id ≡ none
      → IsStamped now item new
      → ((j : Text) → b' j ≡ (if text_eq new.id j then some new else b j))
      → Promises b (adds now item) b' (added new)
  promises_list :
      (items : List Item)
      → ((item : Item) → Mem item items ↔ (b item.id ≡ some item))
      → Nodup (map (λ (item : Item). item.id) items)
      → IsSorted item_less items
      → Promises b lists b (listed items)
  promises_empty :
      (empty : Bool)
      → (empty ≡ true ↔ ((j : Text) → b j ≡ none))
      → Promises b asks_empty b (emptiness empty)
  promises_complete :
      (id : Text) (b' : Board)
      → ((j : Text) → b' j ≡ (if text_eq id j then none else b j))
      → Promises b (completes id) b' (completed (b id))

-- The replies to a sequence of calls that the promises allow.
pub data Allowed : Board → List Operation → List Reply → Type 0 where
  no_calls : (b : Board) → Allowed b [] []
  next_call :
      (b b' : Board) (op : Operation) (reply : Reply) (ops : List Operation) (replies : List Reply)
      → Promises b op b' reply
      → Allowed b' ops replies
      → Allowed b (op ∷ ops) (reply ∷ replies)

abbrev board : Store → Board
board s id = Table.get id s.items

perform-IsValid :
    (op : Operation) (s : Store) → IsValid s → s.next_id < max_int64 → IsValid (perform op s).0
unfolding perform
perform-IsValid (adds now item) s v room = add-IsValid now item s v room
perform-IsValid lists s v room = v
perform-IsValid asks_empty s v room = v
perform-IsValid (completes id) s v room = complete-IsValid id s v

next_id-perform :
    (op : Operation) (s : Store) → s.next_id < max_int64 → (perform op s).0.next_id ≤ s.next_id + 1
unfolding perform add complete
next_id-perform (adds now item) s h = omega arith
next_id-perform lists s h = omega arith
next_id-perform asks_empty s h = omega arith
next_id-perform (completes id) s h = ground arith

stamped-IsStamped : (now : ℤ) (item : Item) (n : ℕ) → IsStamped now item (stamped now item n)
unfolding stamped
stamped-IsStamped now item n = record {
  content = refl;
  context = refl;
  source = refl;
  target_type = refl;
  target_id = refl;
  user_id = refl;
  created_at = refl;
}

empty_iff :
    (items : Table.Table Text Item)
    → ((length items == 0) ≡ true) ↔ ((j : Text) → Table.get j items ≡ none)
unfolding Table.get
empty_iff [] = (λ h j. refl, λ h. refl)
empty_iff ((k, item) ∷ items) =
    (λ h. absurd (ground arith), λ h. absurd (ground (arith, h k, text_eq_iff k k)))

mem-list :
    (s : Store) → IsValid s → (item : Item) → Mem item (list s) ↔ (board s item.id ≡ some item)
mem-list s v item = (
  stored s v item,
  λ found. (Perm.mem_iff (list_lem s).0).1 (mem_of_get item.id item s.items found),
)

perform-Promises :
    (op : Operation) (s : Store)
    → IsValid s
    → s.next_id < max_int64
    → Promises (board s) op (board (perform op s).0) (perform op s).1
unfolding perform add is_empty_store
perform-Promises (adds now item) s v room =
    let (fresh, _, found) = add_lem now item s v room in
    promises_add now item (add now item s).1 (board (add now item s).0) fresh
      (stamped-IsStamped now item _) found
perform-Promises lists s v room =
    promises_list (list s) (mem-list s v)
      ((Perm.Nodup-iff (Perm.map (λ (item : Item). item.id) (list_lem s).0)).1
        (Nodup-keys (λ (item : Item). item.id) s.items v.unique v.keyed))
      (list_lem s).1
perform-Promises asks_empty s v room = promises_empty _ (empty_iff s.items)
perform-Promises (completes id) s v room =
    let (answer, rest, _) = complete_lem id s v in
    subst (λ o. Promises (board s) (completes id) (board (complete id s).0) (completed o))
      (sym answer) (promises_complete id (board (complete id s).0) rest)

perform_all-Allowed :
    (ops : List Operation) (s : Store)
    → IsValid s
    → s.next_id + length ops ≤ max_int64
    → Allowed (board s) ops (perform_all ops s)
unfolding perform_all
perform_all-Allowed [] s v room = no_calls (board s)
perform_all-Allowed (op ∷ ops) s v room =
    next_call _ _ _ _ _ _ (perform-Promises op s v (omega arith)) (
      perform_all-Allowed ops (perform op s).0 (perform-IsValid op s v (omega arith))
        (omega (arith, next_id-perform op s)))

-- The store refines a set of items by id. The replies to every sequence of fewer than 2^63 calls of Add,
-- List, IsEmpty and Complete on a new store are ones that the promises allow from the empty set: Add
-- stores the item, stamped, under an id that was free, Complete takes out and returns what is under its id,
-- List returns each item once, by creation time and id, and IsEmpty says whether there is none.
pub perform_all_refines :
    (ops : List Operation)
    → length ops ≤ max_int64
    → Allowed (λ id. none) ops (perform_all ops new_store)
unfolding Table.get
perform_all_refines ops room = perform_all-Allowed ops new_store IsValid-new_store (omega arith)
