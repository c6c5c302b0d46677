-- ===== src/Prelude/Table.antt =====
-- Go's maps as association lists. The order of the entries stands for the order in which `range`
-- visits them, which Go leaves open.
pub mod Entries
use miss_raspberry_agent.Prelude.Equality.{Eq}
use miss_raspberry_agent.Prelude.Tests.{if◌then◌else◌, Bool-cases}
use mathlib.Core.Path.{◌≡◌, refl}
use mathlib.Core.Bool.{Bool, false, ◌||◌}
use mathlib.Core.Logic.{inl, inr}
use mathlib.Core.Option.{Option, none, some}
use mathlib.Core.List.{List, [], ◌∷◌}
use native.Mathlib.Omega.{arith}

abbrev pub Table {ℓ κ} : Type ℓ → Type κ → Type (ℓ ⊔ κ)
Table K V = List (K × V)

module _ {ℓ κ} {K : Type ℓ} {V : Type κ} where
  -- the values, as `range` visits them
  unfoldable pub values : Table K V → List V
  values [] = []
  values ((k, v) ∷ m) = v ∷ values m

module _ {ℓ κ} {K : Type ℓ} {V : Type κ} ⦃e : Eq K⦄ where
  -- m[k]
  unfoldable pub get : K → Table K V → Option V
  get k [] = none
  get k ((j, v) ∷ m) = if e.beq j k then some v else get k m

  -- m[k] = v
  unfoldable pub put : K → V → Table K V → Table K V
  put k v [] = (k, v) ∷ []
  put k v ((j, w) ∷ m) = if e.beq j k then (k, v) ∷ m else (j, w) ∷ put k v m

  -- delete(m, k)
  unfoldable pub delete : K → Table K V → Table K V
  delete k [] = []
  delete k ((j, w) ∷ m) = if e.beq j k then m else (j, w) ∷ delete k m

  unfoldable pub has_key : K → Table K V → Bool
  has_key k [] = false
  has_key k ((j, w) ∷ m) = e.beq j k || has_key k m

  -- Every key stands once.
  abbrev pub IsMap : Table K V → Type 0
  IsMap [] = Unit
  IsMap ((k, v) ∷ m) = (has_key k m ≡ false) × IsMap m

  pub get_absent : (k : K) (m : Table K V) → has_key k m ≡ false → get k m ≡ none
  unfolding has_key get
  get_absent k [] h = refl
  get_absent k ((j, v) ∷ m) h = ground (arith, get_absent k m)

  pub get-put :
      (k j : K) (v : V) (m : Table K V)
      → get j (put k v m) ≡ (if e.beq k j then some v else get j m)
  unfolding get put
  get-put k j v [] = refl
  get-put k j v ((i, w) ∷ m) =
      ground (arith, e.beq_iff k j, e.beq_iff i k, e.beq_iff i j, get-put k j v m)

  pub has_key-put :
      (k j : K) (v : V) (m : Table K V) → has_key j (put k v m) ≡ (e.beq k j || has_key j m)
  unfolding has_key put
  has_key-put k j v [] = refl
  has_key-put k j v ((i, w) ∷ m) =
      ground (arith, e.beq_iff k j, e.beq_iff i k, e.beq_iff i j, has_key-put k j v m)

  pub has_key-delete_le :
      (k j : K) (m : Table K V) → has_key j m ≡ false → has_key j (delete k m) ≡ false
  unfolding has_key delete
  has_key-delete_le k j [] h = refl
  has_key-delete_le k j ((i, w) ∷ m) h = ground (arith, has_key-delete_le k j m)

  pub get-delete :
      (k j : K) (m : Table K V)
      → IsMap m
      → get j (delete k m) ≡ (if e.beq k j then none else get j m)
  unfolding get delete
  get-delete k j [] h = ground arith
  get-delete k j ((i, w) ∷ m) (h, hs) =
      ground
        (arith, e.beq_iff k j, e.beq_iff i k, e.beq_iff i j, get-delete k j m hs, get_absent i m h)

  pub put-IsMap : (k : K) (v : V) (m : Table K V) → IsMap m → IsMap (put k v m)
  unfolding put has_key
  put-IsMap k v [] h = (refl, tt)
  put-IsMap k v ((i, w) ∷ m) (h, hs) = elim (Bool-cases (e.beq i k)) [
    | inl same ↦ rw same (ground (arith, e.beq_iff i k), hs)
    | inr other ↦
        rw other
          (ground (arith, has_key-put k i v m, e.beq_iff i k, e.beq_iff k i), put-IsMap k v m hs)
  ]

  pub delete-IsMap : (k : K) (m : Table K V) → IsMap m → IsMap (delete k m)
  unfolding delete
  delete-IsMap k [] h = h
  delete-IsMap k ((i, w) ∷ m) (h, hs) = elim (Bool-cases (e.beq i k)) [
    | inl same ↦ rw same hs
    | inr other ↦ rw other (has_key-delete_le k i m h, delete-IsMap k m hs)
  ]
