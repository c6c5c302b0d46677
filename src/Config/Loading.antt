-- ===== src/Config/Loading.antt =====
-- When the configuration loads, and that what it holds is usable.
use miss_raspberry_agent.Prelude.{
  All, ◌≡◌, refl, subst, ◌≢◌, false, [], ◌∷◌, arith, Text, codes, is_empty, ok,
}
use miss_raspberry_agent.Config.{
  Config, has_brace, env_or_default, load, loaded, default_base_url, default_model,
  default_web_socket_url, default_addr,
}

has_brace-eq-false : (s : Text) → has_brace s ≡ false → All (λ c. (c ≢ b'{') × (c ≢ b'}')) s
unfolding has_brace
has_brace-eq-false [] h = tt
has_brace-eq-false (c ∷ s) h = (
  (λ e. absurd (ground (arith, e, h)), λ e. absurd (ground (arith, e, h))),
  has_brace-eq-false s (ground (arith, h)),
)

-- A configuration that the service can start with
pub record IsUsable (env : Text → Text) (c : Config) : Type 0 where
  pub api_key : (c.model.api_key ≡ env (codes "MODEL_API_KEY")) × (is_empty c.model.api_key ≡ false)
  pub api_token : (c.http.api_token ≡ env (codes "API_TOKEN")) × (is_empty c.http.api_token ≡ false)
  pub base_url : is_empty c.model.base_url ≡ false
  pub model_name : is_empty c.model.name ≡ false
  pub web_socket_url : is_empty c.napcat.web_socket_url ≡ false
  pub addr : is_empty c.http.addr ≡ false
  pub prompt : All (λ r. (r ≢ b'{') × (r ≢ b'}')) c.agent.system_prompt

module _ (env : Text → Text) where
  env_or_default_filled :
      (key fallback : Text)
      → is_empty fallback ≡ false
      → is_empty (env_or_default env key fallback) ≡ false
  unfolding env_or_default
  env_or_default_filled key fallback h = ground arith

  load_checked :
      {c : Config}
      → load env ≡ ok c
      → (is_empty (env (codes "MODEL_API_KEY")) ≡ false)
        × (is_empty (env (codes "API_TOKEN")) ≡ false)
        × (has_brace (env (codes "SYSTEM_PROMPT")) ≡ false)
        × (loaded env ≡ c)
  unfolding load
  load_checked h = (ground (arith, h), ground (arith, h), ground (arith, h), ground (arith, h))

  loaded-IsUsable :
      is_empty (env (codes "MODEL_API_KEY")) ≡ false
      → is_empty (env (codes "API_TOKEN")) ≡ false
      → has_brace (env (codes "SYSTEM_PROMPT")) ≡ false
      → IsUsable env (loaded env)
  unfolding loaded
  loaded-IsUsable p q r = record {
    api_key = (refl, p);
    api_token = (refl, q);
    base_url = env_or_default_filled (codes "MODEL_BASE_URL") default_base_url refl;
    model_name = env_or_default_filled (codes "MODEL_NAME") default_model refl;
    web_socket_url = env_or_default_filled (codes "NAPCAT_WS_URL") default_web_socket_url refl;
    addr = env_or_default_filled (codes "HTTP_ADDR") default_addr refl;
    prompt = has_brace-eq-false (env (codes "SYSTEM_PROMPT")) r;
  }

  -- A configuration that loads has the model's key and the API token of the environment, neither of
  -- them empty, addresses and a model name that are not empty, and a system prompt without braces.
  pub load-IsUsable : (c : Config) → load env ≡ ok c → IsUsable env c
  load-IsUsable c h =
      let (p, q, r, e) = load_checked h in subst (IsUsable env) e (loaded-IsUsable p q r)

  -- The configuration loads where the two secrets are set and the prompt has no brace.
  load_succeeds :
      is_empty (env (codes "MODEL_API_KEY")) ≡ false
      → is_empty (env (codes "API_TOKEN")) ≡ false
      → has_brace (env (codes "SYSTEM_PROMPT")) ≡ false
      → load env ≡ ok (loaded env)
  unfolding load
  load_succeeds p q r = ground (arith, p, q, r)
