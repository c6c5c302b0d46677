-- ===== src/App/Pipeline/Rising.antt =====
-- What one action does to the times at which a task is fired.
use miss_raspberry_agent.Prelude.{
  if◌then◌else◌, Bool-cases, Option-cases, ℤ, ltb_ℤ, max_int64, ℕ_eq, ℤ_eq, ℕ, ◌<◌, ◌≡◌, refl, sym,
  ap, ◌∙◌, subst, ◌⊎◌, inl, inr, true, Option, none, some, List, [], ◌∷◌, ◌++◌, arith, Text, codes,
  text_eq, text_eq_iff, text_eq_inst,
}
use miss_raspberry_agent.Prelude.Table
use miss_raspberry_agent.Prelude.Table.Entries.{All-get}
use miss_raspberry_agent.Prelude.Ids.{IsIssued}
use miss_raspberry_agent.Scheduler.Calendar.{Time, unix}
use miss_raspberry_agent.Scheduler.Store.{Task, Store, add_at, cancel, advance, fire, is_due}
use miss_raspberry_agent.Scheduler.Store.Laws.{KeyedEntry, IssuedEntry, cancel_lem}
use miss_raspberry_agent.Scheduler.Store.Dispatch.Loop.{Fired, fire_due}
use miss_raspberry_agent.Scheduler.Store.Dispatch.Settled.{IsPlanned, advance-not_due}
use miss_raspberry_agent.Scheduler.Store.Dispatch.Reachable.{IsSound, PlannedEntry}
use miss_raspberry_agent.App.Pipeline.Tasks.{TaskStep, keeps, takes, gains, loses}
use miss_raspberry_agent.App.Pipeline.Steps.{get-add_at, next_id-cancel, TaskStep-next_id}

-- Later than the last time, if there was one
abbrev pub Above : Option ℤ → ℤ → Type 0
Above none time = Unit
Above (some last) time = ltb_ℤ last time ≡ true

-- The events of the id are for later and later times, all after the last one.
abbrev pub Rises : Text → Option ℤ → List Task → Type 0
Rises id last [] = Unit
Rises id last (t ∷ ts) =
    if text_eq t.id id
    then Above last t.next_run_at × Rises id (some t.next_run_at) ts
    else Rises id last ts

-- What stands under the id is for later than the last time.
abbrev pub Bounds : Text → Option ℤ → Store → Type 0
Bounds id last s = (t : Task) → Table.get id s.tasks ≡ some t → Above last t.next_run_at

-- What a step leaves: a last time from which on the events rise, if they rose after the step from its own.
pub record Rising (id : Text) (last : Option ℤ) (s' : Store) (fired : List Task) : Type 0 where
  pub next_last : Option ℤ
  pub known : IsIssued (codes "task-") s'.next_id id ⊎ (next_last ≡ none)
  pub bounds : Bounds id next_last s'
  pub extends : (rest : List Task) → Rises id next_last rest → Rises id last (fired ++ rest)

fire-by_id : (now : Time) (t u : Task) (s : Store) → t.id ≡ u.id → fire now t s ≡ fire now u s
unfolding fire
fire-by_id now t u s key = rw key refl

-- An event was due, and stood under its id.
pub fire-cases :
    (now : Time) (t : Task) (s : Store)
    → IsSound s
    → ((fire now t s).1 ≡ none) × ((fire now t s).0 ≡ s)
      ⊎ ((cur : Task) × ((fire now t s).1 ≡ some cur)
          × (Table.get cur.id s.tasks ≡ some cur)
          × (is_due now cur ≡ true)
          × Fired now cur s (fire now t s).0)
unfolding fire is_due
fire-cases now t s v = elim (Option-cases (Table.get t.id s.tasks)) [
  | inl absent ↦ inl (rw (absent, fire) refl, rw (absent, fire) refl)
  | inr (cur, found) ↦ elim (Bool-cases (ltb_ℤ (unix now) cur.next_run_at)) [
    | inl early ↦ inl (rw (found, early, fire) refl, rw (found, early, fire) refl)
    | inr reached ↦
        let key : cur.id ≡ t.id = All-get KeyedEntry t.id cur s.tasks v.valid.keyed found in
        let stored : Table.get cur.id s.tasks ≡ some cur =
          subst (λ i. Table.get i s.tasks ≡ some cur) (sym key) found in
        let is_now : is_due now cur ≡ true = ground (arith, reached) in
        let (event, done) = fire_due now cur s v.valid.unique stored is_now in
        let alike = fire-by_id now t cur s (sym key) in
        inr (
          cur,
          ap (λ (r : Store × Option Task). r.1) alike ∙ event,
          stored,
          is_now,
          subst (λ (r : Store × Option Task). Fired now cur s r.0) (sym alike) done,
        )
  ]
]

module _ (id : Text) (last : Option ℤ) (s : Store) (v : IsSound s)
    (known : IsIssued (codes "task-") s.next_id id ⊎ (last ≡ none))
    (bounds : Bounds id last s) where
  -- Nothing of the id is fired, and it keeps what it has, or has nothing.
  unmoved :
      (s' : Store) (fired : List Task)
      → IsIssued (codes "task-") s'.next_id id ⊎ (last ≡ none)
      → Bounds id last s'
      → ((rest : List Task) → Rises id last rest → Rises id last (fired ++ rest))
      → Rising id last s' fired
  unmoved s' fired known' bounds' extends = record {
    next_last = last;
    known = known';
    bounds = bounds';
    extends = extends;
  }

  Fired-Rising :
      (now : Time) (cur : Task) (s' : Store)
      → Table.get cur.id s.tasks ≡ some cur
      → is_due now cur ≡ true
      → Fired now cur s s'
      → Rising id last s' (cur ∷ [])
  unfolding is_due
  Fired-Rising now cur s' stored is_now done = elim (Bool-cases (text_eq cur.id id)) [
    | inr other ↦
        unmoved s' (cur ∷ [])
          (subst (λ n. IsIssued (codes "task-") n id ⊎ (last ≡ none)) (sym done.same_counter) known)
          (λ t at. bounds t (sym (done.tasks id ∙ rw other refl) ∙ at))
          (λ rest rises. rw other rises)
    | inl this ↦
        let here : cur.id ≡ id = (text_eq_iff cur.id id).0 this in
        let at_id : Table.get id s.tasks ≡ some cur =
          subst (λ i. Table.get i s.tasks ≡ some cur) here stored in
        record {
          next_last = some cur.next_run_at;
          known = inl (
              subst (λ n. IsIssued (codes "task-") n id) (sym done.same_counter)
                (All-get (IssuedEntry s.next_id) id cur s.tasks v.valid.issued at_id));
          bounds = λ later at.
              later_time now cur later (All-get PlannedEntry id cur s.tasks v.planned at_id)
                (sym (done.tasks id ∙ rw this refl) ∙ at) is_now;
          extends = λ rest rises. rw this (bounds cur at_id, rises);
        }
  ]
    where
      later_time :
          (now : Time) (cur later : Task)
          → IsPlanned cur
          → advance now cur ≡ some later
          → is_due now cur ≡ true
          → ltb_ℤ cur.next_run_at later.next_run_at ≡ true
      later_time now cur later planned from is_now =
          ground (arith, advance-not_due now cur later planned from, is_now)

  pub TaskStep-Rising :
      (seconds : ℕ → Text) (s' : Store) (fired : List Task)
      → TaskStep seconds s s' fired
      → s.next_id < max_int64
      → Rising id last s' fired
  TaskStep-Rising seconds s' fired (keeps same none_fired) room =
      rw (same, none_fired) (unmoved s [] known bounds (λ rest rises. rises))
  TaskStep-Rising seconds s' fired (takes now t same as_fired) room =
      rw (same, as_fired)
        (elim (fire-cases now t s v) [
          | inl (no_event, kept) ↦
              rw (no_event, kept) (unmoved s [] known bounds (λ rest rises. rises))
          | inr (cur, event, stored, is_now, done) ↦
              rw event (Fired-Rising now cur (fire now t s).0 stored is_now done)
        ])
  TaskStep-Rising seconds s' fired (loses j same none_fired) room =
      rw (same, none_fired)
        (unmoved (cancel j s).0 []
          (subst (λ n. IsIssued (codes "task-") n id ⊎ (last ≡ none)) (sym (next_id-cancel j s))
            known)
          (λ t at. bounds t (left_by_cancel t at)) (λ rest rises. rises))
    where
      left_by_cancel :
          (t : Task) → Table.get id (cancel j s).0.tasks ≡ some t → Table.get id s.tasks ≡ some t
      left_by_cancel t at = ground (arith, (cancel_lem j s v.valid).1 id, at)
  TaskStep-Rising seconds s' fired (gains content sch src now times same none_fired) room =
      rw (same, none_fired)
        (elim known [
          | inl given ↦
              let counted =
                TaskStep-next_id seconds s (add_at seconds content (some sch) src now s).0 []
                  (gains content sch src now times refl refl) room in
              unmoved _ []
                (inl (record {
                  call = given.call;
                  named = given.named;
                  in_range = omega (arith, given.in_range, counted.0);
                }))
                (λ t at.
                  bounds t (sym (get-add_at seconds content sch src now s room id given) ∙ at))
                (λ rest rises. rises)
          | inr unbound ↦ unmoved _ [] (inr unbound) (λ t at. rw unbound tt) (λ rest rises. rises)
        ])
