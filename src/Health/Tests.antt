-- ===== src/Health/Tests.antt =====
-- The readiness of a service whose directory has not been loaded.
use miss_raspberry_agent.Prelude.{◌≡◌, refl, true, false, some}
use miss_raspberry_agent.Todo
use miss_raspberry_agent.Napcat.Client.{new_client}
use miss_raspberry_agent.Health.{Transport, app_checks, check_health, probe_each}

abbrev starting : Transport
starting = record { connected = true; client = new_client }

not_ready : (check_health (some Todo.new_store) app_checks starting).1 ≡ false
unfolding check_health probe_each
not_ready = refl
