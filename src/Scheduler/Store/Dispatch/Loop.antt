-- ===== src/Scheduler/Store/Dispatch/Loop.antt =====
-- The loop of dispatch over a list of due tasks.
use miss_raspberry_agent.Prelude.{
  if◌then◌else◌, Option-cases, length, All, ltb_ℤ, ℕ_eq, ℤ_eq, ℕ, zero, suc, ◌≤◌, ◌≡◌, refl, ap,
  ◌∙◌, inl, inr, true, false, some, List, [], ◌∷◌, arith, Text, text_eq, text_eq_iff, text_eq_inst,
}
use miss_raspberry_agent.Prelude.Table
use miss_raspberry_agent.Prelude.Table.{IsMap, put-IsMap, delete-IsMap, get-put, get-delete}
use miss_raspberry_agent.Scheduler.Calendar.{Time, unix}
use miss_raspberry_agent.Scheduler.Schedule.{next}
use miss_raspberry_agent.Scheduler.Store.{
  Task, Store, is_due, advance, fire, Dispatched, dispatch_each,
}

module _ (now : Time) where
  pub id-advance : (t u : Task) → advance now t ≡ some u → u.id ≡ t.id
  unfolding advance
  id-advance t u h = elim (Option-cases (next t.sch now)) [
    | inl never ↦ ground arith
    | inr (first, found) ↦ ground arith
  ]

  -- What firing a due task does to the store.
  pub record Fired (t : Task) (s s' : Store) : Type 0 where
    pub unique : IsMap s'.tasks
    pub same_counter : s'.next_id ≡ s.next_id
    pub tasks :
        (k : Text)
        → Table.get k s'.tasks ≡ (if text_eq t.id k then advance now t else Table.get k s.tasks)

  pub fire_due :
      (t : Task) (s : Store)
      → IsMap s.tasks
      → Table.get t.id s.tasks ≡ some t
      → is_due now t ≡ true
      → ((fire now t s).1 ≡ some t) × Fired t s (fire now t s).0
  unfolding fire is_due
  fire_due t s unique found is_now =
      let still : ltb_ℤ (unix now) t.next_run_at ≡ false = ground arith in
      elim (Option-cases (advance now t)) [
        | inl gone ↦
            rw (found, still, gone, fire)
              (
                refl,
                record {
                  unique = delete-IsMap t.id s.tasks unique;
                  same_counter = refl;
                  tasks = λ k. rw gone (get-delete t.id k s.tasks unique);
                },
              )
        | inr (later, advanced) ↦
            rw (found, still, advanced, fire)
              (
                refl,
                record {
                  unique = put-IsMap t.id later s.tasks unique;
                  same_counter = refl;
                  tasks = λ k. rw advanced (get-put t.id k later s.tasks);
                },
              )
      ]

  -- The tasks are stored under their ids, and due.
  abbrev pub Ready : Store → List Task → Type 0
  Ready s = All (λ t. (Table.get t.id s.tasks ≡ some t) × (is_due now t ≡ true))

  abbrev pub Avoids : Text → List Task → Type 0
  Avoids k = All (λ t. text_eq t.id k ≡ false)

  -- No two tasks have one id.
  abbrev pub Apart : List Task → Type 0
  Apart [] = Unit
  Apart (t ∷ ts) = Avoids t.id ts × Apart ts

  Ready-Fired :
      (t : Task) (s s' : Store) (ts : List Task)
      → Fired t s s'
      → Avoids t.id ts
      → Ready s ts
      → Ready s' ts
  Ready-Fired t s s' [] fired apart ready = tt
  Ready-Fired t s s' (u ∷ ts) fired (other, apart) ((found, is_now), ready) = (
    (ground (arith, fired.tasks u.id, text_eq_iff t.id u.id, text_eq_iff u.id t.id), is_now),
    Ready-Fired t s s' ts fired apart ready,
  )

  passed_over :
      (t : Task) (s s' : Store) (k : Text)
      → Fired t s s'
      → text_eq t.id k ≡ false
      → Table.get k s'.tasks ≡ Table.get k s.tasks
  passed_over t s s' k fired other = fired.tasks k ∙ rw other

  Fired-self : (t : Task) (s s' : Store) → Fired t s s' → Table.get t.id s'.tasks ≡ advance now t
  Fired-self t s s' fired = fired.tasks t.id ∙ rw ((text_eq_iff t.id t.id).1 refl)

  -- What the loop does to the store, when nothing stops it.
  pub record Settles (ts : List Task) (s : Store) (d : Dispatched) : Type 0 where
    pub sent : d.sent ≡ ts
    pub finished : d.open_ctx ≡ true
    pub unique : IsMap d.store.tasks
    pub same_counter : d.store.next_id ≡ s.next_id
    pub others : (k : Text) → Avoids k ts → Table.get k d.store.tasks ≡ Table.get k s.tasks
    pub advanced : All (λ t. Table.get t.id d.store.tasks ≡ advance now t) ts

  pub dispatch_each_lem :
      (room : ℕ) (ts : List Task) (s : Store)
      → length ts ≤ room
      → IsMap s.tasks
      → Apart ts
      → Ready s ts
      → Settles ts s (dispatch_each room now ts s)
  unfolding dispatch_each
  dispatch_each_lem room [] s fits unique apart ready = record {
    sent = refl;
    finished = refl;
    unique = unique;
    same_counter = refl;
    others = λ k _. refl;
    advanced = tt;
  }
  dispatch_each_lem zero (t ∷ ts) s fits unique apart ready = absurd (omega arith)
  dispatch_each_lem (suc room) (t ∷ ts) s fits unique (away, apart) ((found, is_now), ready) =
      let (event, fired) = fire_due t s unique found is_now in
      let s' = (fire now t s).0 in
      let rest =
        dispatch_each_lem room ts s' (omega arith) fired.unique apart
          (Ready-Fired t s s' ts fired away ready) in
      rw (event, dispatch_each)
        (record {
          sent = ap (◌∷◌ t) rest.sent;
          finished = rest.finished;
          unique = rest.unique;
          same_counter = rest.same_counter ∙ fired.same_counter;
          others = λ k avoids. rest.others k avoids.1 ∙ passed_over t s s' k fired avoids.0;
          advanced = (rest.others t.id away ∙ Fired-self t s s' fired, rest.advanced);
        })
