-- ===== src/Moderator/Command.antt =====
-- cmd/moderator/main.go and the registry of internal/agent: the command that judges one comment.
use miss_raspberry_agent.Prelude.{
  if◌then◌else◌, Option-cases, ℕ_eq, ℤ_eq, ℕ, ◌<◌, ◌≡◌, refl, ◌∙◌, inl, inr, Bool, Option, none,
  some, [], ◌∷◌, arith, Text, codes, text_eq, text_eq_iff, text_eq_inst, Result-cases, Result, ok,
  err,
}
use miss_raspberry_agent.Prelude.Table
use miss_raspberry_agent.Prelude.Table.{Table}
use miss_raspberry_agent.Config.{Config, ConfigError, load}
use miss_raspberry_agent.Config.Loading.{IsUsable, load-IsUsable}
use miss_raspberry_agent.Moderator.{
  Judgment, Verdict, ModeratorError, count_words, validate_comment_length, run_moderator,
}
use miss_raspberry_agent.Moderator.Verdicts.{IsVerdict, run_moderator_lem}

-- RoleCommentModerator
abbrev pub role_comment_moderator : Text
role_comment_moderator = codes "comment_moderator"

-- Registry, for agents of type `A`
abbrev pub Registry : Type 0 → Type 0
Registry A = Table Text A

-- NewRegistry
unfoldable pub new_registry : {A : Type 0} → A → Registry A
new_registry moderator = (role_comment_moderator, moderator) ∷ []

-- Registry.Get
unfoldable pub get_agent : {A : Type 0} → Text → Registry A → Option A
get_agent role agents = Table.get role agents

get_agent-new_registry :
    {A : Type 0} (role : Text) (moderator : A)
    → get_agent role (new_registry moderator)
      ≡ (if text_eq role_comment_moderator role then some moderator else none)
unfolding get_agent new_registry Table.get
get_agent-new_registry role moderator = refl

pub data CommandError (E : Type 0) : Type 0 where
  invalid_comment : ℕ → CommandError E
  bad_config : ConfigError → CommandError E
  no_model : E → CommandError E
  unknown_role : Text → CommandError E
  run_failed : ModeratorError E → CommandError E

-- run, behind readComment and up to the printing: `new_model` is NewJSONModel, which makes of the
-- configuration a model that answers to a comment, and `decode` is json.Unmarshal into a Judgment.
module _ {W E : Type 0} (is_letter is_digit_rune : ℕ → Bool) (env : Text → Text)
    (new_model : Config → Result E (Text → W → W × Result E Text))
    (decode : Text → Result Text Judgment) where
  unfoldable pub judge :
      (Text → W → W × Result E Text) → Text → W → W × Result (CommandError E) Verdict
  judge generate comment w = elim (get_agent role_comment_moderator (new_registry generate)) [
    | none ↦ (w, err (unknown_role role_comment_moderator))
    | some moderator ↦
        let (w', verdict) = run_moderator is_letter is_digit_rune moderator decode comment w in
        elim verdict [ err e ↦ (w', err (run_failed e)) | ok v ↦ (w', ok v) ]
  ]

  unfoldable pub run_command : Text → W → W × Result (CommandError E) Verdict
  unfolding judge
  run_command comment w = elim (validate_comment_length is_letter is_digit_rune comment) [
    | some n ↦ (w, err (invalid_comment n))
    | none ↦ elim (load env) [
      | err e ↦ (w, err (bad_config e))
      | ok config ↦ elim (new_model config) [
        | err e ↦ (w, err (no_model e))
        | ok generate ↦ judge generate comment w
      ]
    ]
  ]

  -- The registry has the moderator.
  judge-run_moderator :
      (generate : Text → W → W × Result E Text) (comment : Text) (w : W) (v : Verdict)
      → (judge generate comment w).1 ≡ ok v
      → (run_moderator is_letter is_digit_rune generate decode comment w).1 ≡ ok v
  unfolding judge
  judge-run_moderator generate comment w v h =
      let found : get_agent role_comment_moderator (new_registry generate) ≡ some generate =
        get_agent-new_registry role_comment_moderator generate
        ∙ rw ((text_eq_iff role_comment_moderator role_comment_moderator).1 refl) refl in
      let answer = (run_moderator is_letter is_digit_rune generate decode comment w).1 in
      elim (Result-cases answer) [
        | inl (e, failed) ↦ absurd (ground (arith, h, found, failed))
        | inr (v', got) ↦ ground (arith, h, found, got)
      ]

  run_command_inv :
      (comment : Text) (w : W) (v : Verdict)
      → (run_command comment w).1 ≡ ok v
      → (config : Config) × (generate : (Text → W → W × Result E Text)) × (load env ≡ ok config)
        × (new_model config ≡ ok generate)
        × ((run_moderator is_letter is_digit_rune generate decode comment w).1 ≡ ok v)
  unfolding run_command
  run_command_inv comment w v h =
      elim (Option-cases (validate_comment_length is_letter is_digit_rune comment)) [
        | inr (n, short) ↦ absurd (ground (arith, h, short))
        | inl long ↦ elim (Result-cases (load env)) [
          | inl (e, failed) ↦ absurd (ground (arith, h, long, failed))
          | inr (config, read) ↦ elim (Result-cases (new_model config)) [
            | inl (e, failed) ↦ absurd (ground (arith, h, long, read, failed))
            | inr (generate, made) ↦ (
              config,
              generate,
              read,
              made,
              judge-run_moderator generate comment w v (ground (arith, h, long, read, made)),
            )
          ]
        ]
      ]

  -- The command prints a verdict only on a comment of more than 100 words and with a usable configuration,
  -- and the verdict is one that the model of this configuration was asked for: its judgment has what it
  -- needs, and it allows the comment exactly if there is a substantive argument and no attack.
  pub run_command_lem :
      (comment : Text) (w : W) (v : Verdict)
      → (run_command comment w).1 ≡ ok v
      → (100 < count_words is_letter is_digit_rune comment)
        × IsVerdict v
        × ((config : Config) × (generate : (Text → W → W × Result E Text)) × IsUsable env config
            × (new_model config ≡ ok generate)
            × ((run_moderator is_letter is_digit_rune generate decode comment w).1 ≡ ok v))
  run_command_lem comment w v h =
      let (config, generate, read, made, run) = run_command_inv comment w v h in
      let (long, fine, _) =
        (run_moderator_lem is_letter is_digit_rune generate decode comment w).verdict v run in
      (long, fine, (config, generate, load-IsUsable env config read, made, run))
