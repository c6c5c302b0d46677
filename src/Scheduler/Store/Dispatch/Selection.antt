-- ===== src/Scheduler/Store/Dispatch/Selection.antt =====
-- The tasks that `due` selects.
use miss_raspberry_agent.Prelude.{
  Bool-cases, All, ℕ_eq, ℤ_eq, ◌≡◌, sym, ap, subst, ◌↔◌, inl, inr, true, some, List, [], ◌∷◌, map,
  arith, Text, text_eq_iff, text_eq_inst,
}
use mathlib.Core.HLevel.{hedberg}
use mathlib.Core.Logic.Or
use mathlib.Core.List.{
  Mem, Perm, Nodup, Nodup-cons, mem-cons, not-mem-nil, mem-cons_self, mem-cons_of_mem, Mem-prop,
}
use mathlib.Core.List.Perm
use native.Mathlib.Decide.{ℕ_discrete}
use miss_raspberry_agent.Prelude.Table
use miss_raspberry_agent.Prelude.Table.{values}
use miss_raspberry_agent.Prelude.Table.Entries.{get_of_mem, mem_of_get, Nodup-keys}
use miss_raspberry_agent.Prelude.Sorting.{sort_by-perm, IsWeakOrder, sort_by-IsSorted, IsSorted}
use miss_raspberry_agent.Scheduler.Calendar.{Time}
use miss_raspberry_agent.Scheduler.Store.{Task, Store, is_due, select_due, due, runs_before}
use miss_raspberry_agent.Scheduler.Store.Laws.{IsValid}
use miss_raspberry_agent.Scheduler.Store.Dispatch.Loop.{Ready, Avoids, Apart}

pub Task-set : IsSet Task
Task-set = hedberg (hlevel ℕ_discrete)

abbrev id_of : Task → Text
id_of t = t.id

All-of_Mem {ℓ κ} :
    {A : Type ℓ} (P : A → Type κ) (xs : List A) → ((x : A) → Mem x xs → P x) → All P xs
All-of_Mem P [] h = tt
All-of_Mem P (x ∷ xs) h = (h x mem-cons_self, All-of_Mem P xs (λ y m. h y (mem-cons_of_mem x m)))

module _ (now : Time) where
  selected_prop : (t : Task) (ts : List Task) → IsProp (Mem t ts × (is_due now t ≡ true))
  selected_prop t ts = hlevel

  mem_of_selected :
      (t : Task) (ts : List Task) → Mem t (select_due now ts) → Mem t ts × (is_due now t ≡ true)
  unfolding select_due
  mem_of_selected t [] m = absurd (not-mem-nil m)
  mem_of_selected t (u ∷ ts) m = elim (Bool-cases (is_due now u)) [
    | inl p ↦
        Or.elim (selected_prop t (u ∷ ts)) (mem-cons.0 (rw p at m))
          (λ e. (mem-cons.1 (Or.inl e), subst (λ x. is_due now x ≡ true) (sym e) p))
          (λ later.
            let (there, is_now) = mem_of_selected t ts later in (mem-cons_of_mem u there, is_now))
    | inr p ↦
        let (there, is_now) = mem_of_selected t ts (rw p at m) in (mem-cons_of_mem u there, is_now)
  ]

  selected_of_mem :
      (t : Task) (ts : List Task) → Mem t ts → is_due now t ≡ true → Mem t (select_due now ts)
  unfolding select_due
  selected_of_mem t [] m is_now = absurd (not-mem-nil m)
  selected_of_mem t (u ∷ ts) m is_now = elim (Bool-cases (is_due now u)) [
    | inl p ↦ rw p (
        Or.elim Mem-prop (mem-cons.0 m) (λ e. mem-cons.1 (Or.inl e))
          (λ later. mem-cons_of_mem u (selected_of_mem t ts later is_now)))
    | inr p ↦ rw p (
        Or.elim Mem-prop (mem-cons.0 m) (λ e. absurd (ground (arith, ap (is_due now) e)))
          (λ later. selected_of_mem t ts later is_now))
  ]

  due-perm : (s : Store) → Perm (due now s) (select_due now (values s.tasks))
  unfolding due
  due-perm s = sort_by-perm runs_before _

  id_of_selected :
      (k : Text) (ts : List Task) → Mem k (map id_of (select_due now ts)) → Mem k (map id_of ts)
  unfolding select_due
  id_of_selected k [] m = m
  id_of_selected k (u ∷ ts) m = elim (Bool-cases (is_due now u)) [
    | inl p ↦
        Or.elim Mem-prop (mem-cons.0 (rw p at m)) (λ e. mem-cons.1 (Or.inl e))
          (λ later. mem-cons_of_mem u.id (id_of_selected k ts later))
    | inr p ↦ mem-cons_of_mem u.id (id_of_selected k ts (rw p at m))
  ]

  Nodup-select_due : (ts : List Task) → Nodup (map id_of ts) → Nodup (map id_of (select_due now ts))
  unfolding select_due
  Nodup-select_due [] h = h
  Nodup-select_due (t ∷ ts) h = elim (Bool-cases (is_due now t)) [
    | inl p ↦ rw p (
        Nodup-cons.1 (
          (λ m. (Nodup-cons.0 h).0 (id_of_selected t.id ts m)),
          Nodup-select_due ts (Nodup-cons.0 h).1,
        ))
    | inr p ↦ rw p (Nodup-select_due ts (Nodup-cons.0 h).1)
  ]

  Apart-of_Nodup : (ts : List Task) → Nodup (map id_of ts) → Apart now ts
  Apart-of_Nodup [] h = tt
  Apart-of_Nodup (t ∷ ts) h = (avoids ts (Nodup-cons.0 h).0, Apart-of_Nodup ts (Nodup-cons.0 h).1)
    where
      avoids : (us : List Task) → ¬ Mem t.id (map id_of us) → Avoids now t.id us
      avoids [] absent = tt
      avoids (u ∷ us) absent = (
        ground (arith, text_eq_iff u.id t.id, λ (e : t.id ≡ u.id). absent (mem-cons.1 (Or.inl e))),
        avoids us (λ m. absent (mem-cons_of_mem u.id m)),
      )

module _ (now : Time) (s : Store) (v : IsValid s) where
  abbrev task_key : Task → Text
  task_key t = t.id

  -- Exactly the stored tasks that have come due are selected.
  pub mem-due :
      (t : Task) → Mem t (due now s) ↔ ((Table.get t.id s.tasks ≡ some t) × (is_due now t ≡ true))
  mem-due t = (
    λ m.
        let (there, is_now) = mem_of_selected now t _ ((Perm.mem_iff (due-perm now s)).0 m) in
        (get_of_mem task_key Task-set t s.tasks v.unique v.keyed there, is_now),
    λ (found, is_now).
        (Perm.mem_iff (due-perm now s)).1
          (selected_of_mem now t _ (mem_of_get t.id t s.tasks found) is_now),
  )

  pub due-Apart : Apart now (due now s)
  due-Apart = Apart-of_Nodup now _ (
      Perm.nodup (Perm.symm (Perm.map id_of (due-perm now s)))
        (Nodup-select_due now _ (Nodup-keys task_key s.tasks v.unique v.keyed)))

  pub due-Ready : Ready now s (due now s)
  due-Ready = All-of_Mem _ (due now s) (λ t m. (mem-due t).0 m)

runs_before-IsWeakOrder : IsWeakOrder runs_before
runs_before-IsWeakOrder = record { asym = λ a b h. ground arith; trans = λ a b c h k. ground arith }

-- The selected tasks stand in the order of their times.
pub due-IsSorted : (now : Time) (s : Store) → IsSorted runs_before (due now s)
unfolding due
due-IsSorted now s = sort_by-IsSorted runs_before runs_before-IsWeakOrder _
