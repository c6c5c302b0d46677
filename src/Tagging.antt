-- ===== src/Tagging.antt =====
-- internal/tagging and internal/agent/tagger: tag sets, and the choice of a tag for a text.
pub mod Service
pub mod Laws
mod Tests
use miss_raspberry_agent.Prelude.{
  ◌==◌, if◌then◌else◌, length, ℕ, ◌+◌, not, Option, none, some, List, [], ◌∷◌, ◌++◌, format_nat,
  Text, codes, text_eq, is_empty, trim_space, Result, ok, err,
}

pub record Tag : Type 0 where
  pub name : Text
  pub description : Text
  pub apply_rule : Text

pub record TagSet : Type 0 where
  pub name : Text
  pub prompt : Text
  pub tags : List Tag

-- The Result of agent/tagger; an empty name is no match.
pub record Choice : Type 0 where
  pub name : Text
  pub reason : Text

abbrev pub no_choice : Choice
no_choice = record { name = []; reason = [] }

pub data RunError : Type 0 where
  tags_required no_prompt no_text no_json : RunError
  model_failed decode_failed : Text → RunError
  reason_required : Text → RunError

-- The loops of Tag and of normalizeResult over the tags
unfoldable pub find_tag : Text → List Tag → Option Tag
find_tag name [] = none
find_tag name (tag ∷ tags) =
    let later = find_tag name tags in if text_eq tag.name name then some tag else later

-- normalizeResult
unfoldable pub normalize_result : Choice → List Tag → Result RunError Choice
normalize_result r tags =
    let name = trim_space r.name in
    let reason = trim_space r.reason in
    if is_empty name then ok no_choice else elim (find_tag name tags) [
      | none ↦ ok no_choice
      | some tag ↦
          if is_empty reason
          then err (reason_required name)
          else ok (record { name = name; reason = reason })
    ]

-- strings.IndexByte and LastIndexByte, by what stands from the first `c` on, and up to the last one
unfoldable pub from_first : ℕ → Text → Text
from_first c [] = []
from_first c (x ∷ s) = let later = from_first c s in if x == c then x ∷ s else later

unfoldable pub to_last : ℕ → Text → Text
to_last c [] = []
to_last c (x ∷ s) =
    let later = to_last c s in
    if not (is_empty later) then x ∷ later else if x == c then x ∷ [] else []

-- What parseResult and parseJudgment decode: from the first "{" to the last "}", if that is behind it.
unfoldable pub json_object : Text → Option Text
unfolding from_first to_last
json_object content =
    let object = to_last b'}' (from_first b'{' (trim_space content)) in
    if is_empty object then none else some object

-- The text of buildTagInput
unfoldable pub tag_lines : ℕ → List Tag → Text
tag_lines n [] = []
tag_lines n (tag ∷ tags) =
    format_nat n
    ++ codes ". name: "
    ++ tag.name
    ++ codes "\n"
    ++ (if is_empty tag.description
        then []
        else codes "   description: " ++ tag.description ++ codes "\n")
    ++ codes "   apply_rule: "
    ++ tag.apply_rule
    ++ codes "\n"
    ++ tag_lines (n + 1) tags

unfoldable pub build_tag_input : TagSet → Text → Text
unfolding tag_lines
build_tag_input set text =
    (if is_empty set.name then [] else codes "Tag set: " ++ set.name ++ codes "\n")
    ++ codes "Set instructions: "
    ++ set.prompt
    ++ codes "\n"
    ++ codes "\nTags:\n"
    ++ tag_lines 1 set.tags
    ++ codes "\nText to tag:\n"
    ++ text

-- Run of the Tagger: `generate` is the chat model's answer to the system prompt and this message, and
-- `decode` is json.Unmarshal into a Result, which may fail.
unfoldable pub run_tagger :
    (Text → Result Text Text) → (Text → Result Text Choice) → TagSet → Text → Result RunError Choice
unfolding json_object
run_tagger generate decode set text =
    if length set.tags == 0
    then err tags_required
    else if is_empty (trim_space set.prompt)
    then err no_prompt
    else if is_empty (trim_space text)
    then err no_text
    else elim (generate (build_tag_input set text)) [
      | err e ↦ err (model_failed e)
      | ok content ↦ elim (json_object content) [
        | none ↦ err no_json
        | some object ↦ elim (decode object) [
          | err e ↦ err (decode_failed e)
          | ok r ↦ normalize_result r set.tags
        ]
      ]
    ]
