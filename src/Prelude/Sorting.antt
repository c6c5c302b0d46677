-- ===== src/Prelude/Sorting.antt =====
-- `sort.Slice` and `sort.SliceStable`, as insertion sort with the caller's `less`.
use miss_raspberry_agent.Prelude.Tests.{if◌then◌else◌, Bool-cases}
use mathlib.Core.Path.{◌≡◌, ap₂, subst, sym}
use mathlib.Core.Bool.{Bool, true, false}
use mathlib.Core.Logic.{inl, inr}
use mathlib.Core.Logic.Or
use mathlib.Core.List.Perm
use mathlib.Core.List.Pairwise
use mathlib.Core.List.{
  List, [], ◌∷◌, Mem, Perm, Pairwise, mem-cons, mem-cons_self, mem-cons_of_mem, Pairwise-singleton,
  Pairwise-cons,
}

-- What a `less` has to be for a sorted order to exist.
pub record IsWeakOrder {ℓ} {A : Type ℓ} (less : A → A → Bool) : Type ℓ where
  pub asym : (a b : A) → less a b ≡ true → less b a ≡ false
  pub trans : (a b c : A) → less b a ≡ false → less c b ≡ false → less c a ≡ false

module _ {ℓ} {A : Type ℓ} (less : A → A → Bool) where
  unfoldable pub insert_by : A → List A → List A
  insert_by x [] = x ∷ []
  insert_by x (y ∷ ys) = if less y x then y ∷ insert_by x ys else x ∷ y ∷ ys

  -- Elements of which neither is less keep their order.
  unfoldable pub sort_by : List A → List A
  unfolding insert_by
  sort_by [] = []
  sort_by (x ∷ xs) = insert_by x (sort_by xs)

  -- No element is less than one before it.
  abbrev pub IsSorted : List A → Type ℓ
  IsSorted = Pairwise (λ a b. less b a ≡ false)

module _ {ℓ} {A : Type ℓ} (less : A → A → Bool) where
  insert_by-perm : (x : A) (xs : List A) → Perm (insert_by less x xs) (x ∷ xs)
  unfolding insert_by
  insert_by-perm x [] = Perm.rfl
  insert_by-perm x (y ∷ ys) = elim (Bool-cases (less y x)) [
    | inl p ↦ rw p (Perm.trans (Perm.cons y (insert_by-perm x ys)) (Perm.swap x y ys))
    | inr p ↦ rw p Perm.rfl
  ]

  pub sort_by-perm : (xs : List A) → Perm (sort_by less xs) xs
  unfolding sort_by
  sort_by-perm [] = Perm.rfl
  sort_by-perm (x ∷ xs) =
      Perm.trans (insert_by-perm x (sort_by less xs)) (Perm.cons x (sort_by-perm xs))

module _ {ℓ} {A : Type ℓ} (less : A → A → Bool) where
  less_prop : (a b : A) → IsProp (less a b ≡ false)
  less_prop a b = hlevel

  below-cons :
      {x y : A} {ys : List A}
      → less y x ≡ false
      → ((z : A) → Mem z ys → less z x ≡ false)
      → (z : A) → Mem z (y ∷ ys)
      → less z x ≡ false
  below-cons {x} p h z m =
      Or.elim (less_prop z x) (mem-cons.0 m) (λ e. subst (λ w. less w x ≡ false) (sym e) p) (h z)

  below-perm :
      {x : A} {ys zs : List A}
      → Perm zs ys
      → ((z : A) → Mem z ys → less z x ≡ false)
      → (z : A) → Mem z zs
      → less z x ≡ false
  below-perm p h z m = h z ((Perm.mem_iff p).0 m)

module _ {ℓ} {A : Type ℓ} (less : A → A → Bool) (o : IsWeakOrder less) where
  insert_by-IsSorted :
      (x : A) {xs : List A} → IsSorted less xs → IsSorted less (insert_by less x xs)
  unfolding insert_by
  insert_by-IsSorted x Pairwise.nil = Pairwise-singleton _ x
  insert_by-IsSorted x (Pairwise.cons {a = y} {l = ys} below s) = elim (Bool-cases (less y x)) [
    | inl p ↦ rw p (
        Pairwise.cons
          (below-perm less (insert_by-perm less x ys) (below-cons less (o.asym y x p) below))
          (insert_by-IsSorted x s))
    | inr p ↦ rw p (
        Pairwise.cons (below-cons less p (λ z m. o.trans x y z p (below z m)))
          (Pairwise.cons below s))
  ]

  -- The result is in order.
  pub sort_by-IsSorted : (xs : List A) → IsSorted less (sort_by less xs)
  unfolding sort_by
  sort_by-IsSorted [] = Pairwise.nil
  sort_by-IsSorted (x ∷ xs) = insert_by-IsSorted x (sort_by-IsSorted xs)

module _ {ℓ} {A : Type ℓ} (less : A → A → Bool) (irrefl : (a : A) → less a a ≡ false) where
  first_le : {a b : A} {l : List A} → IsSorted less (a ∷ l) → Mem b (a ∷ l) → less b a ≡ false
  first_le {a} {b} s m = below-cons less (irrefl a) (Pairwise-cons.0 s).0 b m

  -- Two sorted lists of the same elements are one list, if elements of which neither is less
  -- are the same.
  pub IsSorted-eq_of_perm :
      (l r : List A)
      → ((a b : A) → Mem a l → Mem b l → less a b ≡ false → less b a ≡ false → a ≡ b)
      → IsSorted less l
      → IsSorted less r
      → Perm l r
      → l ≡ r
  IsSorted-eq_of_perm [] r anti sl sr p = sym (Perm.eq-nil (Perm.symm p))
  IsSorted-eq_of_perm (a ∷ l) [] anti sl sr p = Perm.eq-nil p
  IsSorted-eq_of_perm (a ∷ l) (b ∷ r) anti sl sr p =
      let b_in : Mem b (a ∷ l) = (Perm.mem_iff p).1 mem-cons_self in
      let a_in : Mem a (b ∷ r) = (Perm.mem_iff p).0 mem-cons_self in
      let heads : a ≡ b = anti a b mem-cons_self b_in (first_le sr a_in) (first_le sl b_in) in
      let tails : Perm l r = Perm.cons_inv (Perm.trans p (Perm.symm (Perm.cons' heads Perm.rfl))) in
      ap₂ ◌∷◌ heads (
        IsSorted-eq_of_perm l r
          (λ x y mx my. anti x y (mem-cons_of_mem a mx) (mem-cons_of_mem a my))
          (Pairwise.of_cons sl) (Pairwise.of_cons sr) tails)
