-- ===== src/Todo/Order.antt =====
-- List: the order of the todo queue, which does not depend on the map's iteration order.
use miss_raspberry_agent.Prelude.{
  ℕ_eq, ℤ_eq, ◌≡◌, false, some, arith, text_eq_inst, text_ltb_asym, text_ltb_trans,
  text_ltb_antisymm, text_ltb_irrefl,
}
use mathlib.Core.HLevel.{hedberg}
use mathlib.Core.List.{Mem, Perm}
use mathlib.Core.List.Perm
use native.Mathlib.Decide.{ℕ_discrete}
use miss_raspberry_agent.Prelude.Table
use miss_raspberry_agent.Prelude.Table.{Table, values}
use miss_raspberry_agent.Prelude.Table.Entries.{get_of_mem, values-perm}
use miss_raspberry_agent.Prelude.Sorting.{
  IsWeakOrder, IsSorted, sort_by-perm, sort_by-IsSorted, IsSorted-eq_of_perm,
}
use miss_raspberry_agent.Todo.{Item, Store, item_less, list}
use miss_raspberry_agent.Todo.Laws.{IsValid}

Item-discrete : Discrete Item
Item-discrete = hlevel ℕ_discrete

Item-set : IsSet Item
Item-set = hedberg Item-discrete

item_less-IsWeakOrder : IsWeakOrder item_less
unfolding item_less
item_less-IsWeakOrder = record {
  asym = λ a b h. ground (arith, text_ltb_asym a.id b.id);
  trans = λ a b c h k. ground (arith, text_ltb_trans a.id b.id c.id);
}

item_less_irrefl : (a : Item) → item_less a a ≡ false
unfolding item_less
item_less_irrefl a = ground (arith, text_ltb_irrefl a.id)

same_id : (a b : Item) → item_less a b ≡ false → item_less b a ≡ false → a.id ≡ b.id
unfolding item_less
same_id a b h k = ground (arith, text_ltb_antisymm a.id b.id)

-- List returns each stored item once, ordered by creation time and, at equal times, by id.
pub list_lem : (s : Store) → Perm (list s) (values s.items) × IsSorted item_less (list s)
unfolding list
list_lem s = (sort_by-perm item_less _, sort_by-IsSorted item_less item_less-IsWeakOrder _)

pub stored : (s : Store) → IsValid s → (a : Item) → Mem a (list s) → Table.get a.id s.items ≡ some a
stored s v a m =
    get_of_mem (λ (item : Item). item.id) Item-set a s.items v.unique v.keyed
      ((Perm.mem_iff (list_lem s).0).0 m)

-- List of a valid store does not depend on the order in which the map's entries are visited: a
-- store with the same entries in another order has the same List.
pub list_of_perm : (s t : Store) → IsValid s → Perm s.items t.items → list s ≡ list t
list_of_perm s t v p =
    IsSorted-eq_of_perm item_less item_less_irrefl (list s) (list t) same (list_lem s).1
      (list_lem t).1
      (Perm.trans (list_lem s).0 (Perm.trans (values-perm p) (Perm.symm (list_lem t).0)))
  where
    same :
        (a b : Item)
        → Mem a (list s)
        → Mem b (list s)
        → item_less a b ≡ false
        → item_less b a ≡ false
        → a ≡ b
    same a b ma mb h k = cc (stored s v a ma, stored s v b mb, same_id a b h k)
