-- ===== src/Prelude/Table/Entries.antt =====
-- Predicates on all entries of a table, and the values that `range` visits.
use miss_raspberry_agent.Prelude.Equality.{Eq}
use miss_raspberry_agent.Prelude.Tests.{Bool-cases}
use miss_raspberry_agent.Prelude.Lists.{All, length}
use miss_raspberry_agent.Prelude.Table.{Table, values, get, put, delete, has_key, IsMap, get_absent}
use Prim.Native.Nat.{◌+◌, ◌≤◌}
use mathlib.Core.Path.{◌≡◌, refl, subst, sym, ap}
use mathlib.Core.Bool.{true, false}
use mathlib.Core.Logic.{inl, inr}
use mathlib.Core.Logic.Or
use mathlib.Core.Option.{some}
use mathlib.Core.List.{
  [], ◌∷◌, map, Mem, Perm, mem-cons, not-mem-nil, mem-cons_self, mem-cons_of_mem, Nodup, Nodup-nil,
  Nodup-cons,
}
use mathlib.Core.HLevel.{⊥_prop}
use mathlib.Core.List.Perm
use native.Mathlib.Omega.{arith}

module _ {ℓ κ μ} {K : Type ℓ} {V : Type κ} ⦃e : Eq K⦄ (P : K × V → Type μ) where
  pub All-put : (k : K) (v : V) (m : Table K V) → P (k, v) → All P m → All P (put k v m)
  unfolding put
  All-put k v [] p h = (p, tt)
  All-put k v ((j, w) ∷ m) p h = elim (Bool-cases (e.beq j k)) [
    | inl same ↦ rw same (p, h.1)
    | inr other ↦ rw other (h.0, All-put k v m p h.1)
  ]

  pub All-delete : (k : K) (m : Table K V) → All P m → All P (delete k m)
  unfolding delete
  All-delete k [] h = h
  All-delete k ((j, w) ∷ m) h = elim (Bool-cases (e.beq j k)) [
    | inl same ↦ rw same h.1
    | inr other ↦ rw other (h.0, All-delete k m h.1)
  ]

  pub All-get : (k : K) (v : V) (m : Table K V) → All P m → get k m ≡ some v → P (k, v)
  unfolding get
  All-get k v [] h found = cc
  All-get k v ((j, w) ∷ m) h found = elim (Bool-cases (e.beq j k)) [
    | inl same ↦
        let key : j ≡ k = (e.beq_iff j k).0 same in
        let val : w ≡ v = ground arith in subst (λ x. P (k, x)) val (subst (λ i. P (i, w)) key h.0)
    | inr other ↦ All-get k v m h.1 (rw other at found)
  ]

  -- A key whose entry would break the predicate is not there.
  pub has_key_of_All :
      (k : K) (m : Table K V) → ((v : V) → ¬ P (k, v)) → All P m → has_key k m ≡ false
  unfolding has_key
  has_key_of_All k [] no_entry h = refl
  has_key_of_All k ((j, w) ∷ m) no_entry h = elim (Bool-cases (e.beq j k)) [
    | inl same ↦ absurd (no_entry w (subst (λ i. P (i, w)) ((e.beq_iff j k).0 same) h.0))
    | inr other ↦ rw other (has_key_of_All k m no_entry h.1)
  ]

module _ {ℓ κ} {K : Type ℓ} {V : Type κ} ⦃e : Eq K⦄ (key : V → K) where
  -- The table's keys are its values' own.
  abbrev pub IsKeyed : Table K V → Type ℓ
  IsKeyed = All (λ entry. key entry.1 ≡ entry.0)

  has_key_of_mem : (v : V) (m : Table K V) → IsKeyed m → Mem v (values m) → has_key (key v) m ≡ true
  unfolding values has_key
  has_key_of_mem v [] h there = absurd (not-mem-nil there)
  has_key_of_mem v ((j, w) ∷ m) h there =
      Or.elim (hlevel) (mem-cons.0 there)
        (λ same.
          let at_head : key v ≡ j = subst (λ x. key x ≡ j) (sym same) h.0 in
          ground (arith, e.beq_iff j (key v)))
        (λ later. ground (arith, has_key_of_mem v m h.1 later))

  -- A value that `range` visits is found under its key.
  pub get_of_mem :
      (value_set : IsSet V) (v : V) (m : Table K V)
      → IsMap m
      → IsKeyed m
      → Mem v (values m)
      → get (key v) m ≡ some v
  unfolding get values
  get_of_mem value_set v [] unique keyed there = absurd (not-mem-nil there)
  get_of_mem value_set v ((j, w) ∷ m) unique keyed there =
      Or.elim (hlevel value_set) (mem-cons.0 there)
        (λ same.
          let at_head : key v ≡ j = subst (λ x. key x ≡ j) (sym same) keyed.0 in
          ground (arith, e.beq_iff j (key v)))
        (λ later.
          let present = has_key_of_mem v m keyed.1 later in
          let found = get_of_mem value_set v m unique.1 keyed.1 later in
          ground (arith, e.beq_iff j (key v), unique.0))

module _ {ℓ κ} {K : Type ℓ} {V : Type κ} ⦃e : Eq K⦄ where
  pub length-put_le : (k : K) (v : V) (m : Table K V) → length (put k v m) ≤ length m + 1
  unfolding put
  length-put_le k v [] = omega arith
  length-put_le k v ((j, w) ∷ m) = ground (arith, length-put_le k v m)

  pub length-put :
      (k : K) (v : V) (m : Table K V) → has_key k m ≡ false → length (put k v m) ≡ length m + 1
  unfolding put has_key
  length-put k v [] h = omega arith
  length-put k v ((j, w) ∷ m) h = ground (arith, length-put k v m)

  pub length-delete :
      (k : K) (v : V) (m : Table K V) → get k m ≡ some v → length (delete k m) + 1 ≡ length m
  unfolding delete get
  length-delete k v [] h = cc
  length-delete k v ((j, w) ∷ m) h = ground (arith, length-delete k v m)

values-map {ℓ κ} : {K : Type ℓ} {V : Type κ} (m : Table K V) → values m ≡ map (λ entry. entry.1) m
unfolding values
values-map [] = refl
values-map ((k, v) ∷ m) = ap (◌∷◌ v) (values-map m)

-- The same entries in any order have the same values.
pub values-perm {ℓ κ} :
    {K : Type ℓ} {V : Type κ} {m n : Table K V} → Perm m n → Perm (values m) (values n)
values-perm {m} {n} p = rw (values-map m, values-map n) (Perm.map (λ entry. entry.1) p)

-- A value that is found is one that `range` visits.
pub mem_of_get {ℓ κ} :
    {K : Type ℓ} {V : Type κ} ⦃e : Eq K⦄ (k : K) (v : V) (m : Table K V)
    → get k m ≡ some v
    → Mem v (values m)
unfolding get values
mem_of_get ⦃e⦄ k v [] found = cc
mem_of_get ⦃e⦄ k v ((j, w) ∷ m) found = elim (Bool-cases (e.beq j k)) [
  | inl same ↦
      let here : w ≡ v = ground arith in subst (λ x. Mem x (w ∷ values m)) here mem-cons_self
  | inr other ↦ mem-cons_of_mem w (mem_of_get k v m (rw other at found))
]

module _ {ℓ κ} {K : Type ℓ} {V : Type κ} ⦃e : Eq K⦄ (key : V → K) where
  not-mem-keys :
      (k : K) (m : Table K V) → IsKeyed key m → has_key k m ≡ false → ¬ Mem k (map key (values m))
  unfolding has_key values
  not-mem-keys k [] keyed absent = not-mem-nil
  not-mem-keys k ((j, w) ∷ m) keyed absent = λ there.
      Or.elim ⊥_prop (mem-cons.0 there) (λ same. ground (arith, e.beq_iff j k, keyed.0))
        (not-mem-keys k m keyed.1 (ground arith))

  -- The keys of the values that `range` visits are distinct.
  pub Nodup-keys : (m : Table K V) → IsMap m → IsKeyed key m → Nodup (map key (values m))
  unfolding values
  Nodup-keys [] unique keyed = Nodup-nil
  Nodup-keys ((j, w) ∷ m) unique keyed = Nodup-cons.1 (
    subst (λ i. ¬ Mem i (map key (values m))) (sym keyed.0) (not-mem-keys j m keyed.1 unique.0),
    Nodup-keys m unique.1 keyed.1,
  )

-- What holds of every entry that is found holds of all entries.
pub All-of_get {ℓ κ μ} :
    {K : Type ℓ} {V : Type κ} ⦃e : Eq K⦄ (P : K × V → Type μ) (m : Table K V)
    → IsMap m
    → ((k : K) (v : V) → get k m ≡ some v → P (k, v))
    → All P m
unfolding get
All-of_get P [] unique h = tt
All-of_get ⦃e⦄ P ((j, w) ∷ m) unique h = (
  h j w (rw ((e.beq_iff j j).1 refl)),
  All-of_get P m unique.1
      (λ k v found. h k v (ground (arith, e.beq_iff j k, get_absent j m unique.0))),
)
