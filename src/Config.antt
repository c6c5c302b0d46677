-- ===== src/Config.antt =====
-- internal/config: the configuration that is read from the environment.
pub mod Loading
pub mod Tests
use miss_raspberry_agent.Prelude.{
  ◌==◌, if◌then◌else◌, Bool, false, not, ◌||◌, [], ◌∷◌, Text, codes, is_empty, Result, ok, err,
}

-- ModelConfig, NapcatConfig, HTTPConfig and AgentConfig
pub record ModelConfig : Type 0 where
  pub api_key : Text
  pub base_url : Text
  pub name : Text

pub record NapcatConfig : Type 0 where
  pub web_socket_url : Text
  pub access_token : Text

pub record HttpConfig : Type 0 where
  pub addr : Text
  pub api_token : Text

pub record AgentConfig : Type 0 where
  pub system_prompt : Text

pub record Config : Type 0 where
  pub model : ModelConfig
  pub napcat : NapcatConfig
  pub http : HttpConfig
  pub agent : AgentConfig

pub data ConfigError : Type 0 where
  no_api_key no_api_token braces_in_prompt : ConfigError

abbrev pub default_base_url : Text
default_base_url = codes "https://api.openai.com/v1"

abbrev pub default_model : Text
default_model = codes "gpt-4o-mini"

abbrev pub default_web_socket_url : Text
default_web_socket_url = codes "ws://127.0.0.1:3001"

abbrev pub default_addr : Text
default_addr = codes ":4514"

-- strings.ContainsAny(s, "{}")
unfoldable pub has_brace : Text → Bool
has_brace [] = false
has_brace (c ∷ s) = (c == b'{') || (c == b'}') || has_brace s

-- os.Getenv, which is the empty text for a variable that is not set
module _ (env : Text → Text) where
  -- envOrDefault
  unfoldable pub env_or_default : Text → Text → Text
  env_or_default key fallback = if not (is_empty (env key)) then env key else fallback

  -- The configuration that Load returns, if it does
  unfoldable pub loaded : Config
  unfolding env_or_default
  loaded = record {
    model = record {
      api_key = env (codes "MODEL_API_KEY");
      base_url = env_or_default (codes "MODEL_BASE_URL") default_base_url;
      name = env_or_default (codes "MODEL_NAME") default_model;
    };
    napcat = record {
      web_socket_url = env_or_default (codes "NAPCAT_WS_URL") default_web_socket_url;
      access_token = env (codes "NAPCAT_ACCESS_TOKEN");
    };
    http = record {
      addr = env_or_default (codes "HTTP_ADDR") default_addr;
      api_token = env (codes "API_TOKEN");
    };
    agent = record { system_prompt = env (codes "SYSTEM_PROMPT") };
  }

  -- Load
  unfoldable pub load : Result ConfigError Config
  load =
      if is_empty (env (codes "MODEL_API_KEY"))
      then err no_api_key
      else if is_empty (env (codes "API_TOKEN"))
      then err no_api_token
      else if has_brace (env (codes "SYSTEM_PROMPT"))
      then err braces_in_prompt
      else ok loaded
