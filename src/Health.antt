-- ===== src/Health.antt =====
-- internal/health: the report on the service's dependencies, and the checks that internal/app configures.
pub mod Readiness
mod Tests
use miss_raspberry_agent.Prelude.{
  if◌then◌else◌, ℕ, Bool, true, false, not, ◌&&◌, Option, none, some, List, [], ◌∷◌, Text, codes,
  ok,
}
use miss_raspberry_agent.Todo
use miss_raspberry_agent.Napcat.Client.{Client}

abbrev pub status_ok : Text
status_ok = codes "ok"

abbrev pub status_degraded : Text
status_degraded = codes "degraded"

-- Check: a probe of a dependency, whose answer none is that it is healthy. `W` is what the probes read.
pub record Probe (W : Type 0) : Type 0 where
  pub name : Text
  pub ready : W → Option Text

pub record DependencyStatus : Type 0 where
  pub name : Text
  pub status : Text
  pub error : Text

pub record Report : Type 0 where
  pub status : Text
  pub queue_length : ℕ
  pub dependencies : List DependencyStatus

-- The body of Check's loop
unfoldable pub probe : {W : Type 0} → W → Probe W → DependencyStatus × Bool
probe w check = elim (check.ready w) [
  | none ↦ (record { name = check.name; status = status_ok; error = [] }, true)
  | some e ↦ (record { name = check.name; status = status_degraded; error = e }, false)
]

-- The loop of Check, from a value of healthy
unfoldable pub probe_each : {W : Type 0} → W → Bool → List (Probe W) → List DependencyStatus × Bool
unfolding probe
probe_each w healthy [] = ([], healthy)
probe_each w healthy (check ∷ checks) =
    let (status, up) = probe w check in
    let rest = probe_each w (healthy && up) checks in (status ∷ rest.0, rest.1)

-- Check of the Service
unfoldable pub check_health : {W : Type 0} → Option Todo.Store → List (Probe W) → W → Report × Bool
unfolding Todo.len
check_health queue checks w =
    let (dependencies, healthy) = probe_each w true checks in
    (
      record {
        status = if healthy then status_ok else status_degraded;
        queue_length = elim queue [ none ↦ 0 | some s ↦ Todo.len s ];
        dependencies = dependencies;
      },
      healthy,
    )

-- What the checks of app.Run read: whether ZeroBot has a bot, and the QQ client
pub record Transport : Type 0 where
  pub connected : Bool
  pub client : Client

abbrev pub app_checks : List (Probe Transport)
app_checks =
    record {
      name = codes "napcat";
      ready = λ t. if not t.connected then some (codes "no napcat bot connected") else none;
    }
    ∷ record {
      name = codes "napcat_directory";
      ready = λ t.
          if not t.client.directory.loaded
          then some (codes "member directory not loaded yet")
          else none;
    }
    ∷ []
