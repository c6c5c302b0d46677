-- ===== src/App/Lifecycle/Tests.antt =====
-- The service on an address that is taken.
use miss_raspberry_agent.Prelude.{ℕ, ◌≡◌, refl, Text, codes, Result, ok}
use miss_raspberry_agent.Config.{ModelConfig}
use miss_raspberry_agent.Config.Tests.{secrets_only}
use miss_raspberry_agent.Napcat.Client.{Client}
use miss_raspberry_agent.App.Lifecycle.{AppEnding, server_ends, server_broke, run_server}
use miss_raspberry_agent.App.Lifecycle.Exits.{Ends, run_server_lem}

abbrev new_model : ModelConfig → Result Text ℕ
new_model config = ok 1

abbrev make_runner : Text → ℕ → Result Text ℕ
make_runner instruction model = ok 2

abbrev idle : Client → Client
idle c = c

idle_keeps : (c : Client) → ((idle c).running ≡ c.running) × ((idle c).closed ≡ c.closed)
idle_keeps c = (refl, refl)

abbrev taken : AppEnding Text
taken = server_ends (server_broke (codes "address already in use"))

run_server_lem_example :
    Ends new_model new_model make_runner
      (codes "persona")
      idle
      idle_keeps
      secrets_only
      taken
      (run_server new_model new_model make_runner (codes "persona") idle secrets_only taken)
run_server_lem_example =
    run_server_lem new_model new_model make_runner (codes "persona") idle idle_keeps secrets_only
      taken
