-- ===== src/Todo.antt =====
-- internal/tool/todo/store.go: the todo queue. A method of `*Store` takes the store and returns the
-- new one beside its result; the lock makes each of them one step. `now` is time.Now().Unix().
pub mod Laws
pub mod Order
pub mod Refinement
pub mod History
pub mod Tool
mod Tests
use miss_raspberry_agent.Prelude.{
  ◌==◌, if◌then◌else◌, length, ℤ, pos, ltb_ℤ, ◌==ℤ◌, inc64, signed64, ℕ_eq, ℤ_eq, ℕ, Bool, not,
  Option, none, some, List, [], Text, codes, text_eq_inst, text_ltb,
}
use miss_raspberry_agent.Prelude.Table
use miss_raspberry_agent.Prelude.Table.{Table}
use miss_raspberry_agent.Prelude.Ids.{numbered}
use miss_raspberry_agent.Prelude.Sorting.{sort_by}

pub record Item : Type 0 where
  pub id : Text
  pub content : Text
  pub context : Text
  pub source : Text
  pub target_type : Text
  pub target_id : ℤ
  pub user_id : ℤ
  pub created_at : ℤ

pub record Store : Type 0 where
  pub items : Table Text Item
  pub next_id : ℕ

-- NewStore
abbrev pub new_store : Store
new_store = record { items = []; next_id = 0 }

-- fmt.Sprintf("item-%d", nextID)
unfoldable pub item_id : ℕ → Text
item_id = numbered (codes "item-")

-- The item as Add stores it.
unfoldable pub stamped : ℤ → Item → ℕ → Item
stamped now item next_id = record item {
  id = item_id next_id;
  created_at = if item.created_at ==ℤ pos 0 then now else item.created_at;
}

unfoldable pub add : ℤ → Item → Store → Store × Item
add now item s =
    let next_id = inc64 s.next_id in
    let item' = stamped now item next_id in
    (record { items = Table.put item'.id item' s.items; next_id = next_id }, item')

-- The `less` of List.
unfoldable pub item_less : Item → Item → Bool
item_less a b =
    if not (a.created_at ==ℤ b.created_at)
    then ltb_ℤ a.created_at b.created_at
    else text_ltb a.id b.id

unfoldable pub list : Store → List Item
list s = sort_by item_less (Table.values s.items)

unfoldable pub complete : Text → Store → Store × Option Item
complete id s = elim (Table.get id s.items) [
  | some item ↦ (record s { items = Table.delete id s.items }, some item)
  | none ↦ (s, none)
]

-- len(s.items)
unfoldable pub len : Store → ℕ
len s = length s.items

-- IsEmpty: len(s.items) == 0
unfoldable pub is_empty_store : Store → Bool
is_empty_store s = length s.items == 0

unfoldable pub version : Store → ℤ
version s = signed64 s.next_id
