-- ===== src/Todo/Laws.antt =====
-- The todo store's invariant, and what add and complete do to the items that a client can look up.
use miss_raspberry_agent.Prelude.{
  if◌then◌else◌, Option-cases, ℤ, max_int64, inc64, ℕ_eq, ℤ_eq, ◌≤◌, ◌<◌, ◌≡◌, refl, inl, inr,
  false, none, some, arith, Text, codes, text_eq, text_eq_iff, text_eq_inst,
}
use miss_raspberry_agent.Prelude.Table
use miss_raspberry_agent.Prelude.Table.{Table, IsMap, put-IsMap, delete-IsMap, get-put, get-delete}
use miss_raspberry_agent.Prelude.Table.Entries.{IsKeyed, All-put, All-delete}
use miss_raspberry_agent.Prelude.Ids.{IsIssued, AllIssued, AllIssued-put, fresh_id}
use miss_raspberry_agent.Todo.{Item, Store, new_store, item_id, stamped, add, complete}

pub record IsValid (s : Store) : Type 0 where
  pub unique : IsMap s.items
  pub keyed : IsKeyed (λ (item : Item). item.id) s.items
  pub issued : AllIssued (codes "item-") s.next_id s.items
  pub small : s.next_id ≤ max_int64

pub IsValid-new_store : IsValid new_store
IsValid-new_store = record { unique = tt; keyed = tt; issued = tt; small = omega arith }

module _ (now : ℤ) (item : Item) (s : Store) (v : IsValid s) (room : s.next_id < max_int64) where
  pub new_id : Table.has_key (item_id (inc64 s.next_id)) s.items ≡ false
  unfolding item_id
  new_id = fresh_id (codes "item-") s.next_id s.items room v.issued

  -- Add keeps the invariant.
  pub add-IsValid : IsValid (add now item s).0
  unfolding add stamped item_id
  add-IsValid = record {
    unique = put-IsMap _ _ s.items v.unique;
    keyed = All-put (λ entry. entry.1.id ≡ entry.0) _ _ s.items refl v.keyed;
    issued = AllIssued-put (codes "item-") s.next_id _ s.items room v.issued;
    small = omega arith;
  }

  -- In a valid store whose counter has not reached its maximum, Add gives the item an id that no
  -- stored item has. The returned item is found under it with the given content, and what is stored
  -- under any other id is unchanged.
  pub add_lem :
      (Table.get (add now item s).1.id s.items ≡ none)
      × ((add now item s).1.content ≡ item.content)
      × ((id : Text)
          → Table.get id (add now item s).0.items ≡ (
              if text_eq (add now item s).1.id id
              then some (add now item s).1
              else Table.get id s.items))
  unfolding add stamped
  add_lem = (Table.get_absent _ s.items new_id, refl, λ id. get-put _ id _ s.items)

module _ (id : Text) (s : Store) (v : IsValid s) where
  -- Complete keeps the invariant.
  pub complete-IsValid : IsValid (complete id s).0
  unfolding complete
  complete-IsValid = elim (Option-cases (Table.get id s.items)) [
    | inl absent ↦ rw (absent, complete) v
    | inr (item, found) ↦
        rw (found, complete)
          (record {
            unique = delete-IsMap id s.items v.unique;
            keyed = All-delete (λ entry. entry.1.id ≡ entry.0) id s.items v.keyed;
            issued =
                All-delete (λ entry. IsIssued (codes "item-") s.next_id entry.0) id s.items
                  v.issued;
            small = v.small;
          })
  ]

  -- On a valid store Complete returns what was stored under the id, if anything. Afterwards the id is
  -- free, every other id has what it had, and the counter is what it was.
  pub complete_lem :
      ((complete id s).1 ≡ Table.get id s.items)
      × ((j : Text)
          → Table.get j (complete id s).0.items
            ≡ (if text_eq id j then none else Table.get j s.items))
      × ((complete id s).0.next_id ≡ s.next_id)
  unfolding complete
  complete_lem = (
    ground arith,
    λ j. ground (arith, get-delete id j s.items v.unique, text_eq_iff id j),
    ground arith,
  )
