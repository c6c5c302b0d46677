-- ===== src/App/Pipeline/Runs.antt =====
-- Taking a run apart.
use miss_raspberry_agent.Prelude.{
  Option-cases, ℕ, ◌≡◌, refl, sym, ap, ◌∙◌, subst, inl, inr, Option, none, some, List, [], ◌∷◌,
  ◌++◌, arith, Text,
}
use mathlib.Core.List.{append_assoc}
use miss_raspberry_agent.App.Pipeline.{Pipeline, Action, Outcome, quiet, joined, act, run}

-- The property holds of the outcome, if there is one.
abbrev pub Ensures {ℓ} : (Outcome → Type ℓ) → Option Outcome → Type ℓ
Ensures P none = Unit
Ensures P (some o) = P o

pub Ensures-found {ℓ} :
    (P : Outcome → Type ℓ) (r : Option Outcome) (o : Outcome) → r ≡ some o → Ensures P r → P o
Ensures-found P r o found h = subst (Ensures P) found h

pub run_cons :
    (seconds : ℕ → Text) (a : Action) (actions : List Action) (p : Pipeline) (o : Outcome)
    → run seconds (a ∷ actions) p ≡ some o
    → (first : Outcome) × (later : Outcome) × (act seconds a p ≡ some first)
      × (run seconds actions first.pipeline ≡ some later)
      × (o ≡ joined first later)
unfolding run
run_cons seconds a actions p o ran = elim (Option-cases (act seconds a p)) [
  | inl waits ↦ absurd (ground (arith, waits, ran))
  | inr (first, acted) ↦ elim (Option-cases (run seconds actions first.pipeline)) [
    | inl waits ↦ absurd (ground (arith, acted, waits, ran))
    | inr (later, went_on) ↦ (first, later, acted, went_on, ground (arith, acted, went_on, ran))
  ]
]

module _ (seconds : ℕ → Text) where
  pub run-step :
      (a : Action) (actions : List Action) (p : Pipeline) (first later : Outcome)
      → act seconds a p ≡ some first
      → run seconds actions first.pipeline ≡ some later
      → run seconds (a ∷ actions) p ≡ some (joined first later)
  unfolding run
  run-step a actions p first later acted went_on = ground (arith, acted, went_on)

  pub run-append :
      (before after : List Action) (p : Pipeline) (first later : Outcome)
      → run seconds before p ≡ some first
      → run seconds after first.pipeline ≡ some later
      → run seconds (before ++ after) p ≡ some (joined first later)
  unfolding run
  run-append [] after p first later ran went_on =
      let same : quiet p ≡ first = ground (arith, ran) in
      subst (λ (out : Outcome). run seconds after p ≡ some (joined out later)) same
        (subst (λ (out : Outcome). run seconds after out.pipeline ≡ some later) (sym same) went_on)
  run-append (a ∷ before) after p first later ran went_on =
      let (one, rest, acted, ran', same) = run_cons seconds a before p first ran in
      let tail =
        run-append before after one.pipeline rest later ran'
          (subst (λ (out : Outcome). run seconds after out.pipeline ≡ some later) same went_on) in
      run-step a (before ++ after) p one (joined rest later) acted tail
      ∙ ap some (joined-assoc one rest later ∙ ap (λ (out : Outcome). joined out later) (sym same))
    where
      joined-assoc : (x y z : Outcome) → joined x (joined y z) ≡ joined (joined x y) z
      joined-assoc x y z =
          rw
            (append_assoc x.fired y.fired z.fired, append_assoc x.forwarded y.forwarded z.forwarded)
            refl
