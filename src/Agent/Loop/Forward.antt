-- ===== src/Agent/Loop/Forward.antt =====
-- Fired tasks reach the todo queue, as items that tell what they are about.
use miss_raspberry_agent.Prelude.{
  Bool-cases, Option-cases, length, All, ℤ, max_int64, ℕ_eq, ℤ_eq, ◌+◌, ◌≤◌, ◌<◌, ◌≡◌, refl, sym,
  ap, ◌∙◌, inl, inr, none, some, List, [], ◌∷◌, ◌++◌, arith, Text, codes, text_eq, text_eq_iff,
  text_eq_inst,
}
use miss_raspberry_agent.Prelude.Table
use miss_raspberry_agent.Prelude.Table.Entries.{length-put}
use miss_raspberry_agent.Todo
use miss_raspberry_agent.Todo.{Item, item_id, stamped}
use miss_raspberry_agent.Todo.Laws.{IsValid, add-IsValid, add_lem, new_id}
use miss_raspberry_agent.Scheduler.Store.{Task}
use miss_raspberry_agent.Agent.Loop.{
  scheduled_item, enqueue_scheduled_task, forward_scheduled_fires,
}

-- The item tells what the task is about and where it came from.
pub record IsItemOf (task : Task) (item : Item) : Type 0 where
  pub content : item.content ≡ codes "[定时任务 " ++ task.schedule ++ codes "] " ++ task.content
  pub source : item.source ≡ task.source
  pub target_type : item.target_type ≡ task.target_type
  pub target_id : item.target_id ≡ task.target_id
  pub user_id : item.user_id ≡ task.user_id

-- The queue has an item of the task, under an id that was free before.
pub record Gained (s s' : Todo.Store) (task : Task) : Type 0 where
  pub id : Text
  pub item : Item
  pub free : Table.get id s.items ≡ none
  pub stored : Table.get id s'.items ≡ some item
  pub of_task : IsItemOf task item

module _ (now : ℤ) where
  len-add :
      (item : Item) (s : Todo.Store)
      → IsValid s
      → s.next_id < max_int64
      → Todo.len (Todo.add now item s).0 ≡ Todo.len s + 1
  unfolding Todo.add Todo.len stamped
  len-add item s v room = length-put _ _ s.items (new_id now item s v room)

  next_id-add :
      (item : Item) (s : Todo.Store)
      → s.next_id < max_int64
      → (Todo.add now item s).0.next_id ≡ s.next_id + 1
  unfolding Todo.add
  next_id-add item s room = omega arith

  -- Forwarding adds one item for each fired task to a valid queue with room in its counter, and keeps
  -- the queue valid.
  pub forward_scheduled_fires_lem :
      (tasks : List Task) (s : Todo.Store)
      → IsValid s
      → s.next_id + length tasks ≤ max_int64
      → IsValid (forward_scheduled_fires now tasks s)
        × (Todo.len (forward_scheduled_fires now tasks s) ≡ Todo.len s + length tasks)
  unfolding forward_scheduled_fires enqueue_scheduled_task
  forward_scheduled_fires_lem [] s v room = (v, omega arith)
  forward_scheduled_fires_lem (t ∷ tasks) s v room =
      let item = scheduled_item t in
      let (v', count) =
        forward_scheduled_fires_lem tasks (Todo.add now item s).0
          (add-IsValid now item s v (omega arith))
          (omega (arith, next_id-add item s (omega arith))) in
      (v', omega (arith, count, len-add item s v (omega arith)))

  add-get :
      (item old : Item) (s : Todo.Store)
      → IsValid s
      → s.next_id < max_int64
      → (id : Text) → Table.get id s.items ≡ some old
      → Table.get id (Todo.add now item s).0.items ≡ some old
  add-get item old s v room id found =
      let (fresh, _, get) = add_lem now item s v room in
      elim (Bool-cases (text_eq (Todo.add now item s).1.id id)) [
        | inl this ↦
            let same = (text_eq_iff (Todo.add now item s).1.id id).0 this in
            absurd (some_none old (sym found ∙ ap (λ i. Table.get i s.items) (sym same) ∙ fresh))
        | inr other ↦ get id ∙ rw other found
      ]
    where
      some_none : (x : Item) → some x ≡ none → ⊥
      some_none x e = ground (arith, e)

  pub enqueue-Gained :
      (task : Task) (s : Todo.Store)
      → IsValid s
      → s.next_id < max_int64
      → Gained s (enqueue_scheduled_task now task s) task
  unfolding enqueue_scheduled_task scheduled_item Todo.add stamped
  enqueue-Gained task s v room =
      let (fresh, _, get) = add_lem now (scheduled_item task) s v room in
      let id = (Todo.add now (scheduled_item task) s).1.id in
      record {
        id = id;
        item = (Todo.add now (scheduled_item task) s).1;
        free = fresh;
        stored = get id ∙ rw ((text_eq_iff id id).1 refl) refl;
        of_task = record {
          content = refl;
          source = refl;
          target_type = refl;
          target_id = refl;
          user_id = refl;
        };
      }

  forward-get :
      (tasks : List Task) (old : Item) (s : Todo.Store)
      → IsValid s
      → s.next_id + length tasks ≤ max_int64
      → (id : Text) → Table.get id s.items ≡ some old
      → Table.get id (forward_scheduled_fires now tasks s).items ≡ some old
  unfolding forward_scheduled_fires enqueue_scheduled_task
  forward-get [] old s v room id found = found
  forward-get (t ∷ tasks) old s v room id found =
      let item = scheduled_item t in
      forward-get tasks old (Todo.add now item s).0 (add-IsValid now item s v (omega arith))
        (omega (arith, next_id-add item s (omega arith))) id
        (add-get item old s v (omega arith) id found)

  Gained-before :
      (item : Item) (s s' : Todo.Store) (task : Task)
      → IsValid s
      → s.next_id < max_int64
      → Gained (Todo.add now item s).0 s' task
      → Gained s s' task
  Gained-before item s s' task v room g = record {
    id = g.id;
    item = g.item;
    free = elim (Option-cases (Table.get g.id s.items)) [
      | inl absent ↦ absent
      | inr (old, found) ↦ absurd (ground (arith, add-get item old s v room g.id found, g.free))
    ];
    stored = g.stored;
    of_task = g.of_task;
  }

  -- Forwarding puts an item of each fired task into a valid queue with room in its counter, under an id that was
  -- free.
  pub forward-Gained :
      (tasks : List Task) (s : Todo.Store)
      → IsValid s
      → s.next_id + length tasks ≤ max_int64
      → All (Gained s (forward_scheduled_fires now tasks s)) tasks
  unfolding forward_scheduled_fires enqueue_scheduled_task
  forward-Gained [] s v room = tt
  forward-Gained (t ∷ tasks) s v room =
      let item = scheduled_item t in
      let s' = (Todo.add now item s).0 in
      let v' = add-IsValid now item s v (omega arith) in
      let room' : s'.next_id + length tasks ≤ max_int64 =
        omega (arith, next_id-add item s (omega arith)) in
      let first : Gained s s' t = enqueue-Gained t s v (omega arith) in
      (
        record {
          id = first.id;
          item = first.item;
          free = first.free;
          stored = forward-get tasks first.item s' v' room' first.id first.stored;
          of_task = first.of_task;
        },
        All-Gained s s' (forward_scheduled_fires now tasks s') tasks
            (λ task g.
              Gained-before item s (forward_scheduled_fires now tasks s') task v (omega arith) g)
            (forward-Gained tasks s' v' room'),
      )
    where
      All-Gained :
          (s s' final : Todo.Store) (ts : List Task)
          → ((task : Task) → Gained s' final task → Gained s final task)
          → All (Gained s' final) ts
          → All (Gained s final) ts
      All-Gained s s' final [] f h = tt
      All-Gained s s' final (x ∷ xs) f h = (f x h.0, All-Gained s s' final xs f h.1)
