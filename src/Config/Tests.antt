-- ===== src/Config/Tests.antt =====
-- The configuration of an environment with the two secrets only.
use miss_raspberry_agent.Prelude.{if◌then◌else◌, ◌≡◌, refl, [], Text, codes, text_eq, ok}
use miss_raspberry_agent.Config.{load, loaded, has_brace}

abbrev pub secrets_only : Text → Text
secrets_only key =
    if text_eq key (codes "MODEL_API_KEY")
    then codes "k"
    else if text_eq key (codes "API_TOKEN")
    then codes "t"
    else []

secrets_load : load secrets_only ≡ ok (loaded secrets_only)
unfolding load has_brace text_eq
secrets_load = refl
