-- ===== src/App/Lifecycle.antt =====
-- Run of internal/app/app.go, from the construction of the parts to the end of the service, with
-- NewMainAgent, Start of internal/adapter/http/server.go, and run of cmd/server/main.go.
pub mod Exits
mod Tests
use miss_raspberry_agent.Prelude.{Option, none, some, List, [], ◌∷◌, ◌++◌, Text, Result, ok, err}
use miss_raspberry_agent.Config.{Config, ConfigError, ModelConfig, load}
use miss_raspberry_agent.Agent.Prompt.{system_prompt}
use miss_raspberry_agent.Napcat.Client.{Client, new_client, start, stop}
use miss_raspberry_agent.App.Pipeline.{Pipeline, new_pipeline}

-- What Run does with its parts, in order. An end is where it sees that a goroutine has ended.
pub data Effect : Type 0 where
  queue_wired client_started server_started agent_started agent_ended : Effect
  server_shut_down server_ended client_stopped : Effect

pub data AppError (E : Type 0) : Type 0 where
  bad_config : ConfigError → AppError E
  no_chat_model no_main_agent no_tagging_model server_failed : E → AppError E

-- How ListenAndServe ends; it never does without an error, which is ErrServerClosed after a shutdown.
pub data Served (E : Type 0) : Type 0 where
  server_closed : Served E
  server_broke : E → Served E

-- Start of the Server: the error that it returns
unfoldable pub start_error : {E : Type 0} → Served E → Option E
start_error server_closed = none
start_error (server_broke e) = some e

-- Which of the two goroutines the select of Run hears of first: the server; or the agent, and then how
-- Shutdown ends, and how the server does.
pub data AppEnding (E : Type 0) : Type 0 where
  server_ends : Served E → AppEnding E
  agent_ends : Option E → Served E → AppEnding E

-- How Run ends: what it has done, the client, none for a panic of its Stop, and what it returns.
pub record Exit (E : Type 0) : Type 0 where
  pub effects : List Effect
  pub client : Option Client
  pub result : Result (AppError E) (Unit {0})

-- What Run makes of the server's error
unfoldable pub server_result : {E : Type 0} → Served E → Result (AppError E) (Unit {0})
unfolding start_error
server_result served = elim (start_error served) [ none ↦ ok tt | some e ↦ err (server_failed e) ]

-- From the start of the server on
unfoldable pub serve : {E : Type 0} → AppEnding E → List Effect × Result (AppError E) (Unit {0})
unfolding server_result
serve (server_ends served) =
    (server_started ∷ agent_started ∷ server_ended ∷ [], server_result served)
serve (agent_ends shutdown served) = (
  server_started ∷ agent_started ∷ agent_ended ∷ server_shut_down ∷ server_ended ∷ [],
  server_result served,
)

-- MainAgent as NewMainAgent makes it
pub record MainAgent (R : Type 0) : Type 0 where
  pub pipeline : Pipeline
  pub runner : R

-- `new_chat_model` and `new_json_model` are the constructors of internal/llm, `new_runner` is what
-- NewMainAgent calls of the library for agents, on the instruction and the model, and `base` is
-- BaseSystemPrompt. `meanwhile` is what the client's goroutines and the agent do to the client while it runs.
module _ {E M R : Type 0} (new_chat_model new_json_model : ModelConfig → Result E M)
    (new_runner : Text → M → Result E R) (base : Text) (meanwhile : Client → Client) where
  -- NewMainAgent
  unfoldable pub new_main_agent : M → Text → Result E (MainAgent R)
  new_main_agent model prompt = elim (new_runner (system_prompt base prompt) model) [
    | err e ↦ err e
    | ok runner ↦ ok (record { pipeline = new_pipeline; runner = runner })
  ]

  -- Run, from the start of the client on, which returns no error; the deferred Stop comes last.
  unfoldable pub with_client : Config → AppEnding E → Client → Exit E
  unfolding serve
  with_client config ending c =
      let served : List Effect × Result (AppError E) (Unit {0}) =
        elim (new_json_model config.model) [
          | err e ↦ ([], err (no_tagging_model e))
          | ok model ↦ serve ending
        ] in
      record {
        effects = queue_wired ∷ client_started ∷ (served.0 ++ client_stopped ∷ []);
        client = stop (meanwhile (start c));
        result = served.1;
      }

  -- Run
  unfoldable pub run_app : Config → AppEnding E → Exit E
  unfolding new_main_agent with_client
  run_app config ending = elim (new_chat_model config.model) [
    | err e ↦ record { effects = []; client = some new_client; result = err (no_chat_model e) }
    | ok model ↦ elim (new_main_agent model config.agent.system_prompt) [
      | err e ↦ record { effects = []; client = some new_client; result = err (no_main_agent e) }
      | ok agent ↦ with_client config ending new_client
    ]
  ]

  -- run of cmd/server
  unfoldable pub run_server : (Text → Text) → AppEnding E → Exit E
  run_server env ending = elim (load env) [
    | err e ↦ record { effects = []; client = some new_client; result = err (bad_config e) }
    | ok config ↦ run_app config ending
  ]
