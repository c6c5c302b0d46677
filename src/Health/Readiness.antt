-- ===== src/Health/Readiness.antt =====
-- When the report says that the service is ready.
use miss_raspberry_agent.Prelude.{
  if◌then◌else◌, Option-cases, length, All, ◌≡◌, refl, ◌↔◌, inl, inr, Bool, true, false, ◌&&◌,
  Option, none, some, List, [], ◌∷◌, arith, Text, codes,
}
use miss_raspberry_agent.Todo
use miss_raspberry_agent.Health.{
  Probe, DependencyStatus, probe, probe_each, check_health, Transport, app_checks,
}

-- What the report says of a probe
pub record Reported {W : Type 0} (w : W) (check : Probe W) (d : DependencyStatus) : Type 0 where
  pub name : d.name ≡ check.name
  pub up : check.ready w ≡ none → (d.status ≡ codes "ok") × (d.error ≡ [])
  pub down : (e : Text) → check.ready w ≡ some e → (d.status ≡ codes "degraded") × (d.error ≡ e)

-- Two lists correspond element by element.
pub Zip : {A B : Type 0} → (A → B → Type 0) → List A → List B → Type 0
Zip R [] [] = Unit
Zip R [] (b ∷ bs) = ⊥
Zip R (a ∷ as') [] = ⊥
Zip R (a ∷ as') (b ∷ bs) = R a b × Zip R as' bs

abbrev pub Up : {W : Type 0} → W → Probe W → Type 0
Up w check = check.ready w ≡ none

probe-Reported : {W : Type 0} (w : W) (check : Probe W) → Reported w check (probe w check).0
unfolding probe
probe-Reported w check = record {
  name = ground arith;
  up = λ h. rw (h, probe) (refl, refl);
  down = λ e h. rw (h, probe) (refl, refl);
}

probe_each-Zip :
    {W : Type 0} (w : W) (healthy : Bool) (checks : List (Probe W))
    → Zip (Reported w) checks (probe_each w healthy checks).0
unfolding probe_each Zip
probe_each-Zip w healthy [] = tt
probe_each-Zip w healthy (check ∷ checks) =
    (probe-Reported w check, probe_each-Zip w (healthy && (probe w check).1) checks)

and_up :
    {W : Type 0} (w : W) (check : Probe W) (b : Bool)
    → check.ready w ≡ none
    → (b && (probe w check).1) ≡ b
unfolding probe
and_up w check b up = ground (arith, up)

and_down :
    {W : Type 0} (w : W) (check : Probe W) {e : Text} (b : Bool)
    → check.ready w ≡ some e
    → (b && (probe w check).1) ≡ false
unfolding probe
and_down w check b down = ground (arith, down)

probe_each-healthy :
    {W : Type 0} (w : W) (healthy : Bool) (checks : List (Probe W))
    → ((probe_each w healthy checks).1 ≡ true) ↔ ((healthy ≡ true) × All (Up w) checks)
unfolding probe_each
probe_each-healthy w healthy [] = (λ h. (h, tt), λ h. h.0)
probe_each-healthy w healthy (check ∷ checks) =
    let status = probe_each-healthy w healthy checks in
    elim (Option-cases (check.ready w)) [
      | inl up ↦
          let same : (healthy && (probe w check).1) ≡ healthy = and_up w check healthy up in
          rw same (λ h. let (a, b) = status.0 h in (a, (up, b)), λ h. status.1 (h.0, h.1.1))
      | inr (e, down) ↦
          let same : (healthy && (probe w check).1) ≡ false = and_down w check healthy down in
          rw same (
            λ h. absurd (ground (arith, (probe_each-healthy w false checks).0 h)),
            λ h. absurd (ground (arith, down, h.1.0)),
          )
    ]

-- The report lists a status for each check, in their order: ok with no error if the check succeeds, and
-- degraded with the check's error if not. The service is healthy, and the report's status ok, exactly
-- if all checks succeed; otherwise the status is degraded. The queue length is the number of waiting
-- items, or 0 where there is no queue.
pub check_health_lem :
    {W : Type 0} (queue : Option Todo.Store) (checks : List (Probe W)) (w : W)
    → (let (report, healthy) = check_health queue checks w in
        Zip (Reported w) checks report.dependencies
        × ((healthy ≡ true) ↔ All (Up w) checks)
        × (report.status ≡ (if healthy then codes "ok" else codes "degraded"))
        × ((s : Todo.Store) → queue ≡ some s → report.queue_length ≡ length s.items)
        × (queue ≡ none → report.queue_length ≡ 0))
unfolding check_health Todo.len
check_health_lem queue checks w =
    let (to, from) = probe_each-healthy w true checks in
    (
      probe_each-Zip w true checks,
      (λ h. (to h).1, λ h. from (refl, h)),
      refl,
      λ s h. rw h refl,
      λ h. rw h refl,
    )

-- The service of app.Run is ready exactly if a bot is connected and the directory has been loaded.
pub app_checks_lem :
    (queue : Option Todo.Store) (t : Transport)
    → ((check_health queue app_checks t).1 ≡ true)
      ↔ ((t.connected ≡ true) × (t.client.directory.loaded ≡ true))
unfolding check_health probe_each probe
app_checks_lem queue t = (λ h. (ground arith, ground arith), λ h. ground arith)
