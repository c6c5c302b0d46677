-- ===== src/App/Lifecycle/Exits.antt =====
-- How the service ends: when it starts, what it leaves of its parts, and what it returns.
use miss_raspberry_agent.Prelude.{
  ◌≡◌, refl, subst, inl, inr, true, false, some, List, [], ◌∷◌, ◌++◌, arith, Text, Result-cases,
  Result, ok, err,
}
use miss_raspberry_agent.Config.{Config, ModelConfig, load}
use miss_raspberry_agent.Agent.Prompt.{system_prompt}
use miss_raspberry_agent.Napcat.Client.{Client, new_client, start, stop}
use miss_raspberry_agent.App.Lifecycle.{
  Effect, queue_wired, client_started, client_stopped, server_started, server_ended,
  server_shut_down, agent_started, agent_ended, AppError, bad_config, no_chat_model, no_main_agent,
  no_tagging_model, server_failed, Served, server_closed, server_broke, start_error, AppEnding,
  server_ends, agent_ends, Exit, server_result, serve, new_main_agent, with_client, run_app,
  run_server,
}

-- How the server ends, whichever goroutine is heard of first
abbrev pub served_of : {E : Type 0} → AppEnding E → Served E
served_of (server_ends served) = served
served_of (agent_ends shutdown served) = served

-- What happens between the start of the client and its Stop: the server is not shut down if it ends
-- first, and nothing waits for the agent then.
abbrev pub service_of : {E : Type 0} → AppEnding E → List Effect
service_of (server_ends served) = server_started ∷ agent_started ∷ server_ended ∷ []
service_of (agent_ends shutdown served) =
    server_started ∷ agent_started ∷ agent_ended ∷ server_shut_down ∷ server_ended ∷ []

module _ {E M R : Type 0} (new_chat_model new_json_model : ModelConfig → Result E M)
    (new_runner : Text → M → Result E R) (base : Text) (meanwhile : Client → Client)
    (keeps : (c : Client)
      → ((meanwhile c).running ≡ c.running) × ((meanwhile c).closed ≡ c.closed)) where
  -- The client after its Stop: every later SendMessage panics.
  abbrev pub closed_client : Client
  closed_client = record (meanwhile (start new_client)) { running = false; closed = true }

  stop-meanwhile : stop (meanwhile (start new_client)) ≡ some closed_client
  unfolding stop start
  stop-meanwhile =
      let (running, closed) = keeps (start new_client) in ground (arith, running, closed)

  -- All that the service needs can be built.
  pub record Built (env : Text → Text) : Type 0 where
    pub config : Config
    pub loaded : load env ≡ ok config
    pub chat_model : M
    pub has_chat_model : new_chat_model config.model ≡ ok chat_model
    pub runner : R
    pub has_runner :
        new_runner (system_prompt base config.agent.system_prompt) chat_model ≡ ok runner
    pub json_model : M
    pub has_json_model : new_json_model config.model ≡ ok json_model

  -- Nothing was started.
  abbrev Untouched : Exit E → Type 0
  Untouched exit = (exit.effects ≡ []) × (exit.client ≡ some new_client)

  -- The client was started, and stopped last.
  abbrev Stopped : List Effect → Exit E → Type 0
  Stopped between exit =
      (exit.effects ≡ queue_wired ∷ client_started ∷ (between ++ client_stopped ∷ []))
      × (exit.client ≡ some closed_client)

  abbrev failed : AppError E → Result (AppError E) (Unit {0})
  failed e = err e

  abbrev passed : Result (AppError E) (Unit {0})
  passed = ok tt

  pub data Ends (env : Text → Text) (ending : AppEnding E) (exit : Exit E) : Type 0 where
    unstarted :
        (e : AppError E)
        → ¬ Built env
        → Untouched exit
        → exit.result ≡ failed e
        → Ends env ending exit
    unserved :
        (e : AppError E)
        → ¬ Built env
        → Stopped [] exit
        → exit.result ≡ failed e
        → Ends env ending exit
    closed :
        Built env
        → served_of ending ≡ server_closed
        → Stopped (service_of ending) exit
        → exit.result ≡ passed
        → Ends env ending exit
    broke :
        (e : E)
        → Built env
        → served_of ending ≡ server_broke e
        → Stopped (service_of ending) exit
        → exit.result ≡ failed (server_failed e)
        → Ends env ending exit

  -- What Built has is the only value that there is.
  clash : {A B : Type 0} → (r : Result A B) (a : A) (b : B) → r ≡ err a → r ≡ ok b → ⊥
  clash r a b failed_too ok_too = ground (arith, failed_too, ok_too)

  alike : {A B : Type 0} → (r : Result A B) (x y : B) → r ≡ ok x → r ≡ ok y → x ≡ y
  alike r x y one other = ground (arith, one, other)

  serve-service_of :
      (ending : AppEnding E) → serve ending ≡ (service_of ending, server_result (served_of ending))
  unfolding serve
  serve-service_of (server_ends served) = refl
  serve-service_of (agent_ends shutdown served) = refl

  module _ (env : Text → Text) (ending : AppEnding E) where
    served-Ends :
        (served : Served E) (exit : Exit E)
        → Built env
        → served_of ending ≡ served
        → Stopped (service_of ending) exit
        → exit.result ≡ server_result served
        → Ends env ending exit
    unfolding server_result start_error
    served-Ends server_closed exit b ended stopped result = closed b ended stopped result
    served-Ends (server_broke e) exit b ended stopped result = broke e b ended stopped result

    module _ (config : Config) (loaded : load env ≡ ok config) where
      same_config : (b : Built env) → b.config ≡ config
      same_config b = alike (load env) b.config config b.loaded loaded

      no_chat : (e : E) → new_chat_model config.model ≡ err e → ¬ Built env
      no_chat e failed_too b = clash (new_chat_model config.model) e b.chat_model failed_too (
          subst (λ (c : Config). new_chat_model c.model ≡ ok b.chat_model) (same_config b)
            b.has_chat_model)

      no_json : (e : E) → new_json_model config.model ≡ err e → ¬ Built env
      no_json e failed_too b = clash (new_json_model config.model) e b.json_model failed_too (
          subst (λ (c : Config). new_json_model c.model ≡ ok b.json_model) (same_config b)
            b.has_json_model)

      module _ (model : M) (made : new_chat_model config.model ≡ ok model) where
        no_runner :
            (e : E)
            → new_runner (system_prompt base config.agent.system_prompt) model ≡ err e
            → ¬ Built env
        no_runner e failed_too b =
            let chat =
              subst (λ (c : Config). new_chat_model c.model ≡ ok b.chat_model) (same_config b)
                b.has_chat_model in
            let same : b.chat_model ≡ model =
              alike (new_chat_model config.model) b.chat_model model chat made in
            clash (new_runner (system_prompt base config.agent.system_prompt) model) e b.runner
              failed_too
              (subst
                (λ (m : M).
                  new_runner (system_prompt base config.agent.system_prompt) m ≡ ok b.runner)
                same
                (subst
                  (λ (c : Config).
                    new_runner (system_prompt base c.agent.system_prompt) b.chat_model
                    ≡ ok b.runner)
                  (same_config b) b.has_runner))

        with_client-Ends :
            (runner : R)
            → new_runner (system_prompt base config.agent.system_prompt) model ≡ ok runner
            → Ends env ending (
                with_client new_chat_model new_json_model new_runner base meanwhile config ending
                  new_client)
        unfolding with_client
        with_client-Ends runner ran = elim (Result-cases (new_json_model config.model)) [
          | inl (e, no_model) ↦
              unserved (no_tagging_model e) (no_json e no_model) (rw no_model refl, stop-meanwhile)
                (rw no_model refl)
          | inr (json_model, built) ↦
              served-Ends (served_of ending) _
                (record {
                  config = config;
                  loaded = loaded;
                  chat_model = model;
                  has_chat_model = made;
                  runner = runner;
                  has_runner = ran;
                  json_model = json_model;
                  has_json_model = built;
                })
                refl (rw (built, serve-service_of ending) refl, stop-meanwhile)
                (rw (built, serve-service_of ending) refl)
        ]

      run_app-Ends :
          Ends env ending
            (run_app new_chat_model new_json_model new_runner base meanwhile config ending)
      unfolding run_app new_main_agent
      run_app-Ends = elim (Result-cases (new_chat_model config.model)) [
        | inl (e, no_model) ↦
            rw (no_model, run_app)
              (unstarted (no_chat_model e) (no_chat e no_model) (refl, refl) refl)
        | inr (model, made) ↦
            elim (Result-cases (new_runner (system_prompt base config.agent.system_prompt) model)) [
              | inl (e, no_run) ↦
                  rw (made, no_run, run_app)
                    (unstarted (no_main_agent e) (no_runner model made e no_run) (refl, refl) refl)
              | inr (runner, ran) ↦ rw (made, ran, run_app) (with_client-Ends model made runner ran)
            ]
      ]

  -- If the configuration loads and the chat model, the agent and the tagging model can be built from it, the
  -- server command starts the client, the server and the agent, in this order. It returns no error if the server
  -- ends as after a shutdown, and else the server's error. It shuts the server down exactly if the agent ends
  -- first; if the server ends first, it does not wait for the agent. If one of these cannot be had, neither
  -- the server nor the agent is started, and an error is returned. The client, if it was started, is stopped last,
  -- with no panic, and closed, if nothing else stops it or starts it anew meanwhile.
  pub run_server_lem :
      (env : Text → Text) (ending : AppEnding E)
      → Ends env ending
          (run_server new_chat_model new_json_model new_runner base meanwhile env ending)
  unfolding run_server
  run_server_lem env ending = elim (Result-cases (load env)) [
    | inl (e, bad) ↦
        rw (bad, run_server)
          (unstarted (bad_config e) (λ b. clash (load env) e b.config bad b.loaded) (refl, refl)
            refl)
    | inr (config, loaded) ↦ rw (loaded, run_server) (run_app-Ends env ending config loaded)
  ]
