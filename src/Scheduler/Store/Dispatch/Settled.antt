-- ===== src/Scheduler/Store/Dispatch/Settled.antt =====
-- What a whole dispatch does.
use miss_raspberry_agent.Prelude.{
  if◌then◌else◌, Bool-cases, Option-cases, length, All, ltb_ℤ, ℕ_eq, ℤ_eq, ℕ, ◌≤◌, ◌<◌, ◌≡◌, refl,
  ◌↔◌, sym, ap, ◌∙◌, subst, ◌≢◌, inl, inr, true, false, Option, none, some, List, [], ◌∷◌, arith,
  Text, text_eq_iff, text_eq_inst,
}
use mathlib.Core.List.{Mem, mem-cons, mem-cons_self, mem-cons_of_mem, not-mem-nil}
use mathlib.Core.Logic.Or
use miss_raspberry_agent.Prelude.Sorting.{IsSorted}
use miss_raspberry_agent.Prelude.Table
use miss_raspberry_agent.Prelude.Table.{IsMap}
use miss_raspberry_agent.Prelude.Table.Entries.{All-get, All-of_get}
use miss_raspberry_agent.Scheduler.Calendar.{Time, unix}
use miss_raspberry_agent.Scheduler.Schedule.{Schedule, repeats, next}
use miss_raspberry_agent.Scheduler.Schedule.Firing.{IsDayTimes, IsFiring}
use miss_raspberry_agent.Scheduler.Schedule.Search.{next_sound}
use miss_raspberry_agent.Scheduler.Store.{
  Task, Store, is_due, due, advance, dispatch_each, dispatch, runs_before,
}
use miss_raspberry_agent.Scheduler.Store.Laws.{IsValid, KeyedEntry, IssuedEntry}
use miss_raspberry_agent.Scheduler.Store.Dispatch.Loop.{
  Apart, Avoids, Settles, dispatch_each_lem, id-advance, fire_due,
}
use miss_raspberry_agent.Scheduler.Store.Dispatch.Selection.{
  Task-set, mem-due, due-Apart, due-Ready, due-IsSorted,
}

-- A task that is due is advanced, any other is left alone.
abbrev pub settle : Time → Option Task → Option Task
settle now none = none
settle now (some t) = if is_due now t then advance now t else some t

All-Mem :
    (P : Task → Type 0) (P_prop : (t : Task) → IsProp (P t)) (t : Task) (ts : List Task)
    → All P ts
    → Mem t ts
    → P t
All-Mem P P_prop t [] h m = absurd (not-mem-nil m)
All-Mem P P_prop t (u ∷ ts) h m =
    Or.elim (P_prop t) (mem-cons.0 m) (λ e. subst P (sym e) h.0) (All-Mem P P_prop t ts h.1)

Avoids-of :
    (now : Time) (k : Text) (ts : List Task) → ((u : Task) → Mem u ts → u.id ≢ k) → Avoids now k ts
Avoids-of now k [] h = tt
Avoids-of now k (u ∷ ts) h = (
  ground (arith, text_eq_iff u.id k, h u mem-cons_self),
  Avoids-of now k ts (λ w m. h w (mem-cons_of_mem u m)),
)

id-settle : (now : Time) (t u : Task) → settle now (some t) ≡ some u → u.id ≡ t.id
id-settle now t u from = elim (Bool-cases (is_due now t)) [
  | inl is_now ↦ id-advance now t u (sym (rw is_now refl) ∙ from)
  | inr later ↦ ground (arith)
]

-- A task as AddAt makes it of a schedule that the constructors build.
pub record IsPlanned (t : Task) : Type 0 where
  pub same_repeat : t.repeat ≡ repeats t.sch
  pub day_times : IsDayTimes t.sch.times

later_second :
    (sch : Schedule) (now t : Time)
    → IsFiring sch t
    → now.wall < t.wall
    → ltb_ℤ (unix now) (unix t) ≡ true
unfolding unix
later_second sch now t f after = ground (arith, f.moment)

pub advance-not_due :
    (now : Time) (t u : Task) → IsPlanned t → advance now t ≡ some u → is_due now u ≡ false
unfolding advance is_due
advance-not_due now t u planned from = elim (Option-cases (next t.sch now)) [
  | inl never ↦ absurd (ground arith)
  | inr (first, found) ↦ elim (Bool-cases t.repeat) [
    | inl again ↦
        let (firing, after) =
          next_sound t.sch now (sym planned.same_repeat ∙ again) planned.day_times first found in
        let later = later_second t.sch now first firing after in ground arith
    | inr single ↦ absurd (ground arith)
  ]
]

settle-not_due :
    (now : Time) (t u : Task) → IsPlanned t → settle now (some t) ≡ some u → is_due now u ≡ false
settle-not_due now t u planned from = elim (Bool-cases (is_due now t)) [
  | inl is_now ↦ advance-not_due now t u planned (sym (rw is_now refl) ∙ from)
  | inr later ↦ ground arith
]

module _ (room : ℕ) (now : Time) (s : Store) (v : IsValid s)
    (fits : length (due now s) ≤ room) where
  settled : Settles now (due now s) s (dispatch room now s)
  unfolding dispatch
  settled =
      dispatch_each_lem now room (due now s) s fits v.unique (due-Apart now s v) (due-Ready now s v)

  untouched :
      (k : Text)
      → ((u : Task) → Mem u (due now s) → u.id ≢ k)
      → Table.get k (dispatch room now s).store.tasks ≡ Table.get k s.tasks
  untouched k h = settled.others k (Avoids-of now k (due now s) h)

  get-dispatch :
      (k : Text) (o : Option Task)
      → Table.get k s.tasks ≡ o
      → Table.get k (dispatch room now s).store.tasks ≡ settle now o
  get-dispatch k none absent =
      untouched k (λ u m e.
        let (found, _) = (mem-due now s v u).0 m in cc (ap (λ (i : Text). Table.get i s.tasks) e))
      ∙ absent
  get-dispatch k (some t) found =
      let key : t.id ≡ k = All-get KeyedEntry k t s.tasks v.keyed found in
      let found' : Table.get t.id s.tasks ≡ some t =
        subst (λ i. Table.get i s.tasks ≡ some t) (sym key) found in
      elim (Bool-cases (is_due now t)) [
        | inl is_now ↦
            let m = (mem-due now s v t).1 (found', is_now) in
            let advanced =
              All-Mem (λ u. Table.get u.id (dispatch room now s).store.tasks ≡ advance now u)
                (λ u. hlevel Task-set) t (due now s) settled.advanced m in
            rw is_now (
              subst (λ i. Table.get i (dispatch room now s).store.tasks ≡ advance now t) key
                advanced)
        | inr later ↦ rw later (
            untouched k (λ u m e.
              let (at_u, is_now) = (mem-due now s v u).0 m in
              ground (arith, ap (λ (i : Text). Table.get i s.tasks) e))
            ∙ found)
      ]

  pub sent-dispatch : (dispatch room now s).sent ≡ due now s
  sent-dispatch = settled.sent

  -- When every send goes through, a dispatch on a valid store sends exactly the tasks of the store that
  -- are due, as they stood there, no two with one id, and in the order of their times. Afterwards each
  -- due task stands at its next firing, or is gone if it does not repeat or has none, and every other
  -- id has what it had.
  pub dispatch_lem :
      ((t : Task)
        → Mem t (dispatch room now s).sent
          ↔ ((Table.get t.id s.tasks ≡ some t) × (is_due now t ≡ true)))
      × Apart now (dispatch room now s).sent
      × IsSorted runs_before (dispatch room now s).sent
      × ((dispatch room now s).open_ctx ≡ true)
      × ((k : Text)
          → Table.get k (dispatch room now s).store.tasks ≡ settle now (Table.get k s.tasks))
  dispatch_lem = (
    λ t.
        subst (λ ts. Mem t ts ↔ ((Table.get t.id s.tasks ≡ some t) × (is_due now t ≡ true)))
          (sym settled.sent) (mem-due now s v t),
    subst (Apart now) (sym settled.sent) (due-Apart now s v),
    subst (IsSorted runs_before) (sym settled.sent) (due-IsSorted now s),
    settled.finished,
    λ k. get-dispatch k (Table.get k s.tasks) refl,
  )

  -- What is stored afterwards was stored before, under the same id.
  settled_entry :
      (k : Text) (u : Task)
      → Table.get k (dispatch room now s).store.tasks ≡ some u
      → (t : Task) × (Table.get k s.tasks ≡ some t) × (settle now (some t) ≡ some u)
  settled_entry k u found = elim (Option-cases (Table.get k s.tasks)) [
    | inl absent ↦ absurd (ground (arith, get-dispatch k none absent))
    | inr (t, stored) ↦ (t, stored, sym (get-dispatch k (some t) stored) ∙ found)
  ]

  -- A dispatch on a valid store whose sends all go through leaves the store valid.
  dispatch-IsValid : IsValid (dispatch room now s).store
  dispatch-IsValid = record {
    unique = settled.unique;
    keyed = All-of_get KeyedEntry _ settled.unique (λ k u found.
        let (t, stored, from) = settled_entry k u found in
        id-settle now t u from ∙ All-get KeyedEntry k t s.tasks v.keyed stored);
    issued = rw settled.same_counter (
        All-of_get (IssuedEntry s.next_id) _ settled.unique (λ k u found.
          let (t, stored, from) = settled_entry k u found in
          All-get (IssuedEntry s.next_id) k t s.tasks v.issued stored));
    small = rw settled.same_counter v.small;
  }

  -- When every send goes through, no task of a valid store is due any more after the dispatch,
  -- provided that each task's repeat flag is that of its schedule, and that the schedule's times are
  -- minutes of a day in ascending order.
  pub dispatch-not_due :
      All (λ entry. IsPlanned entry.1) s.tasks
      → All (λ entry. is_due now entry.1 ≡ false) (dispatch room now s).store.tasks
  dispatch-not_due planned =
      All-of_get (λ entry. is_due now entry.1 ≡ false) _ settled.unique
        (λ k u found.
          let (t, stored, from) = settled_entry k u found in
          settle-not_due now t u
            (All-get (λ (entry : Text × Task). IsPlanned entry.1) k t s.tasks planned stored) from)

-- The event that dispatch drops when the context is done before its send.
module _ (now : Time) (s : Store) (v : IsValid s) (t : Task) (ts : List Task)
    (first : due now s ≡ t ∷ ts) where
  first_due : (Table.get t.id s.tasks ≡ some t) × (is_due now t ≡ true)
  first_due = (mem-due now s v t).0 (rw first mem-cons_self)

  -- If the context is done before the first send of a dispatch on a valid store, the dispatch sends
  -- nothing and ends, although it has already moved the earliest due task to its next firing, or
  -- deleted it where it does not repeat or has none.
  pub dispatch-dropped :
      ((dispatch 0 now s).sent ≡ [])
      × ((dispatch 0 now s).open_ctx ≡ false)
      × (Table.get t.id (dispatch 0 now s).store.tasks ≡ advance now t)
  unfolding dispatch dispatch_each
  dispatch-dropped =
      let (event, fired) = fire_due now t s v.unique first_due.0 first_due.1 in
      rw (first, dispatch, event, dispatch_each)
        (refl, refl, fired.tasks t.id ∙ rw ((text_eq_iff t.id t.id).1 refl) refl)
