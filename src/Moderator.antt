-- ===== src/Moderator.antt =====
-- internal/agent/moderator: the count of a comment's words, and the verdict on it.
pub mod Input
pub mod Words
pub mod Verdicts
pub mod Command
mod Tests
use miss_raspberry_agent.Prelude.{
  leb, ◌==◌, if◌then◌else◌, length, ℕ, ◌+◌, Bool, true, false, ◌&&◌, ◌||◌, Option, none, some, List,
  [], ◌∷◌, ◌++◌, Text, is_empty, is_space, Result, ok, err,
}
use miss_raspberry_agent.Tagging.{json_object}

-- strings.Fields; `field` has been read of the field that comes first.
unfoldable pub fields_from : Text → Text → List Text
fields_from field [] = if is_empty field then [] else field ∷ []
fields_from field (c ∷ s) =
    let fresh = fields_from [] s in
    let longer = fields_from (field ++ c ∷ []) s in
    if is_space c then (if is_empty field then fresh else field ∷ fresh) else longer

abbrev pub fields : Text → List Text
fields = fields_from []

-- isHan
unfoldable pub is_han : ℕ → Bool
is_han r =
    (leb 0x4e00 r && leb r 0x9fff)
    || (leb 0x3400 r && leb r 0x4dbf)
    || (leb 0xf900 r && leb r 0xfaff)

abbrev pub min_comment_words : ℕ
min_comment_words = 100

-- IsLetter and IsDigit of package unicode
module _ (is_letter is_digit_rune : ℕ → Bool) where
  -- The inner loop of CountWords, from values of cjk and hasWordRune
  unfoldable pub scan_field : ℕ → Bool → Text → ℕ × Bool
  scan_field cjk has_word_rune [] = (cjk, has_word_rune)
  scan_field cjk has_word_rune (r ∷ field) =
      let han = scan_field (cjk + 1) has_word_rune field in
      let word = scan_field cjk true field in
      let other = scan_field cjk has_word_rune field in
      if is_han r then han else if is_letter r || is_digit_rune r then word else other

  -- The outer loop, from a value of count
  unfoldable pub count_fields : ℕ → List Text → ℕ
  count_fields count [] = count
  count_fields count (field ∷ rest) =
      let (cjk, has_word_rune) = scan_field 0 false field in
      count_fields (if has_word_rune then count + cjk + 1 else count + cjk) rest

  -- CountWords
  unfoldable pub count_words : Text → ℕ
  count_words s = count_fields 0 (fields s)

  -- validateCommentLength: none is no error, and the error names the count.
  unfoldable pub validate_comment_length : Text → Option ℕ
  validate_comment_length comment =
      let n = count_words comment in if leb n min_comment_words then some n else none

-- The labels of the reasons for a denial
pub data DenialReason : Type 0 where
  no_substance attack : DenialReason

pub record Judgment : Type 0 where
  pub has_substantive_argument : Bool
  pub argument_summary : Text
  pub personal_attack : Bool
  pub attack_evidence : Text

pub record Verdict : Type 0 where
  pub allowed : Bool
  pub denial_reasons : List DenialReason
  pub judgment : Judgment

pub data ModeratorError (E : Type 0) : Type 0 where
  too_short : ℕ → ModeratorError E
  generate_failed : E → ModeratorError E
  no_object no_summary no_evidence : ModeratorError E
  undecodable : Text → ModeratorError E

abbrev pub denial_reasons_of : Judgment → List DenialReason
denial_reasons_of j =
    (if j.has_substantive_argument then [] else no_substance ∷ [])
    ++ (if j.personal_attack then attack ∷ [] else [])

-- buildVerdict
unfoldable pub build_verdict : Judgment → Verdict
build_verdict j =
    let reasons = denial_reasons_of j in
    record { allowed = length reasons == 0; denial_reasons = reasons; judgment = j }

-- validateJudgment
unfoldable pub validate_judgment : {E : Type 0} → Judgment → Option (ModeratorError E)
validate_judgment j =
    if is_empty j.argument_summary
    then some no_summary
    else if j.personal_attack && is_empty j.attack_evidence
    then some no_evidence
    else none

-- parseJudgment; `decode` is json.Unmarshal into a Judgment, which may fail.
unfoldable pub parse_judgment :
    {E : Type 0} → (Text → Result Text Judgment) → Text → Result (ModeratorError E) Judgment
parse_judgment {E} decode content = elim (json_object content) [
  | none ↦ err no_object
  | some object ↦ elim (decode object) [
    | err e ↦ err (undecodable e)
    | ok j ↦ elim (validate_judgment {E = E} j) [ none ↦ ok j | some e ↦ err e ]
  ]
]

-- Run: `generate` is the chat model's answer to the system prompt and the comment, which may change a
-- state of the model's.
unfoldable pub run_moderator :
    {W E : Type 0}
    → (ℕ → Bool)
    → (ℕ → Bool)
    → (Text → W → W × Result E Text)
    → (Text → Result Text Judgment)
    → Text
    → W
    → W × Result (ModeratorError E) Verdict
run_moderator {W} {E} is_letter is_digit_rune generate decode comment w =
    elim (validate_comment_length is_letter is_digit_rune comment) [
      | some n ↦ (w, err (too_short n))
      | none ↦
          let (w', answer) = generate comment w in
          elim answer [
            | err e ↦ (w', err (generate_failed e))
            | ok content ↦ elim (parse_judgment {E = E} decode content) [
              | err e ↦ (w', err e)
              | ok j ↦ (w', ok (build_verdict j))
            ]
          ]
    ]
