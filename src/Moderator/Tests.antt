-- ===== src/Moderator/Tests.antt =====
-- The moderator at concrete comments.
use miss_raspberry_agent.Prelude.{
  leb, if◌then◌else◌, ℕ_eq, ℤ_eq, ℕ, zero, suc, ◌+◌, ◌<◌, ◌≡◌, refl, Bool, true, false, ◌&&◌, ◌||◌,
  [], ◌∷◌, is_digit, Text, codes, text_eq, text_eq_inst, is_empty, is_space, trim_space, Result, ok,
}
use miss_raspberry_agent.Prelude.Table
use miss_raspberry_agent.Tagging.{json_object}
use miss_raspberry_agent.Config.{Config, load, loaded, has_brace}
use miss_raspberry_agent.Config.Loading.{IsUsable}
use miss_raspberry_agent.Moderator.Command.{run_command, get_agent, new_registry, run_command_lem}
use miss_raspberry_agent.Moderator.{
  Verdict, validate_comment_length, parse_judgment, validate_judgment, build_verdict, Judgment,
  is_han, scan_field, count_fields, fields_from, count_words, run_moderator,
}
use miss_raspberry_agent.Moderator.Words.{count_han, count_spelled, count_words_lem}
use miss_raspberry_agent.Moderator.Verdicts.{Moderated, IsVerdict, run_moderator_lem}

abbrev ascii_letter : ℕ → Bool
ascii_letter c = (leb b'a' c && leb c b'z') || (leb b'A' c && leb c b'Z')

abbrev mixed : Text
mixed = codes "中文 mixed, with 3 tokens ..."

mixed_words : count_words ascii_letter is_digit mixed ≡ 6
unfolding count_words count_fields scan_field fields_from is_space is_han is_digit
mixed_words = refl

count_words_lem_example :
    count_words ascii_letter is_digit mixed
    ≡ count_han mixed + count_spelled ascii_letter is_digit false mixed
count_words_lem_example = count_words_lem ascii_letter is_digit mixed

abbrev fair : Judgment
fair = record {
  has_substantive_argument = true;
  argument_summary = codes "gives two examples";
  personal_attack = false;
  attack_evidence = [];
}

-- A model that counts its calls.
abbrev counting_model : Text → ℕ → ℕ × Result (Unit {0}) Text
counting_model comment calls = (calls + 1, ok (codes "```{}```"))

run_moderator_lem_example :
    Moderated ascii_letter is_digit counting_model
      (λ object. ok fair)
      mixed
      0
      (run_moderator ascii_letter is_digit counting_model (λ object. ok fair) mixed 0)
run_moderator_lem_example =
    run_moderator_lem ascii_letter is_digit counting_model (λ object. ok fair) mixed 0

abbrev han_text : ℕ → Text
han_text zero = []
han_text (suc n) = 0x4e2d ∷ han_text n

abbrev secrets : Text → Text
secrets key = if is_empty key || text_eq key (codes "SYSTEM_PROMPT") then [] else codes "k"

abbrev json_model : Config → Result (Unit {0}) (Text → ℕ → ℕ × Result (Unit {0}) Text)
json_model config = ok counting_model

abbrev fair_verdict : Verdict
fair_verdict = record { allowed = true; denial_reasons = []; judgment = fair }

fair_verdict_printed :
    (run_command ascii_letter is_digit secrets json_model (λ object. ok fair) (han_text 101) 0).1
    ≡ ok fair_verdict
unfolding run_command load loaded has_brace text_eq validate_comment_length count_words count_fields
    scan_field fields_from is_space is_han is_digit run_moderator parse_judgment validate_judgment
    build_verdict get_agent new_registry Table.get json_object trim_space
fair_verdict_printed = refl

run_command_lem_example :
    (100 < count_words ascii_letter is_digit (han_text 101))
    × IsVerdict fair_verdict
    × ((config : Config) × (generate : (Text → ℕ → ℕ × Result (Unit {0}) Text)) × IsUsable secrets
          config
        × (json_model config ≡ ok generate)
        × ((run_moderator ascii_letter is_digit generate (λ object. ok fair) (han_text 101) 0).1
            ≡ ok fair_verdict))
run_command_lem_example =
    run_command_lem ascii_letter is_digit secrets json_model (λ object. ok fair) (han_text 101) 0
      fair_verdict fair_verdict_printed
