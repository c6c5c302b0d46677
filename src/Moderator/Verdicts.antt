-- ===== src/Moderator/Verdicts.antt =====
-- What Run of the moderator answers.
use miss_raspberry_agent.Prelude.{
  leb, Bool-cases, Option-cases, ℕ, ◌≤◌, ◌<◌, ◌≡◌, refl, ap, ◌∙◌, subst, ◌↔◌, inl, inr, Bool, true,
  false, none, some, [], arith, Text, is_empty, Result-cases, Result, ok, err,
}
use miss_raspberry_agent.Tagging.{json_object}
use miss_raspberry_agent.Moderator.{
  count_words, validate_comment_length, Judgment, Verdict, ModeratorError, build_verdict,
  validate_judgment, parse_judgment, run_moderator, too_short,
}

-- A judgment that a verdict may be built from.
pub record IsJudgment (j : Judgment) : Type 0 where
  pub summary : is_empty j.argument_summary ≡ false
  pub evidence : j.personal_attack ≡ true → is_empty j.attack_evidence ≡ false

-- A verdict that is allowed exactly for a substantive comment without an attack, with its reasons.
pub record IsVerdict (v : Verdict) : Type 0 where
  pub judged : IsJudgment v.judgment
  pub allows :
      (v.allowed ≡ true)
      ↔ ((v.judgment.has_substantive_argument ≡ true) × (v.judgment.personal_attack ≡ false))
  pub reasons : (v.allowed ≡ true) ↔ (v.denial_reasons ≡ [])

validate_judgment-IsJudgment :
    {E : Type 0} (j : Judgment) → validate_judgment {E = E} j ≡ none → IsJudgment j
unfolding validate_judgment
validate_judgment-IsJudgment j h = record {
  summary = ground (arith, h);
  evidence = λ p. ground (arith, h);
}

build_verdict-IsVerdict : (j : Judgment) → IsJudgment j → IsVerdict (build_verdict j)
unfolding build_verdict
build_verdict-IsVerdict j v = record {
  judged = v;
  allows = (λ h. (ground arith, ground arith), λ h. ground (arith, h.0, h.1));
  reasons = (λ h. ground arith, λ h. ground arith);
}

judgment-build_verdict : (j : Judgment) → j ≡ (build_verdict j).judgment
unfolding build_verdict
judgment-build_verdict j = refl

parse_judgment_inv :
    {E : Type 0} (decode : Text → Result Text Judgment) (content : Text) {j : Judgment}
    → parse_judgment {E = E} decode content ≡ ok j
    → IsJudgment j
      × ((object : Text) × (json_object content ≡ some object) × (decode object ≡ ok j))
unfolding parse_judgment
parse_judgment_inv {E} decode content {j} h = elim (Option-cases (json_object content)) [
  | inl nothing ↦ absurd (ground (arith, nothing))
  | inr (object, found) ↦ elim (Result-cases (decode object)) [
    | inl (e, failed) ↦ absurd (ground (arith, found, failed))
    | inr (j', decoded) ↦ elim (Option-cases (validate_judgment {E = E} j')) [
      | inr (e, bad) ↦ absurd (ground (arith, found, decoded, bad))
      | inl fine ↦
          let same : j' ≡ j = ground (arith, found, decoded, fine) in
          (
            subst IsJudgment same (validate_judgment-IsJudgment j' fine),
            (object, found, decoded ∙ ap ok same),
          )
    ]
  ]
]

module _ {W E : Type 0} (is_letter is_digit_rune : ℕ → Bool)
    (generate : Text → W → W × Result E Text) (decode : Text → Result Text Judgment) where
  -- What Run does with a comment, in a state of the chat model.
  pub record Moderated (comment : Text) (w : W) (r : W × Result (ModeratorError E) Verdict)
      : Type 0 where
    pub short :
        count_words is_letter is_digit_rune comment ≤ 100
        → r ≡ (w, err (too_short (count_words is_letter is_digit_rune comment)))
    pub asked : 100 < count_words is_letter is_digit_rune comment → r.0 ≡ (generate comment w).0
    pub verdict :
        (v : Verdict)
        → r.1 ≡ ok v
        → (100 < count_words is_letter is_digit_rune comment)
          × IsVerdict v
          × ((content : Text) × (object : Text) × ((generate comment w).1 ≡ ok content)
              × (json_object content ≡ some object)
              × (decode object ≡ ok v.judgment))

  run_short :
      (comment : Text) (w : W)
      → count_words is_letter is_digit_rune comment ≤ 100
      → run_moderator is_letter is_digit_rune generate decode comment w
        ≡ (w, err (too_short (count_words is_letter is_digit_rune comment)))
  unfolding run_moderator validate_comment_length
  run_short comment w h = ground arith

  run_long :
      (comment : Text) (w : W)
      → 100 < count_words is_letter is_digit_rune comment
      → ((run_moderator is_letter is_digit_rune generate decode comment w).0
          ≡ (generate comment w).0)
        × ((v : Verdict)
            → (run_moderator is_letter is_digit_rune generate decode comment w).1 ≡ ok v
            → (content : Text) × (j : Judgment) × ((generate comment w).1 ≡ ok content)
              × (parse_judgment {E = E} decode content ≡ ok j)
              × (build_verdict j ≡ v))
  unfolding run_moderator validate_comment_length
  run_long comment w h = elim (Result-cases (generate comment w).1) [
    | inl (e, failed) ↦ (ground (arith, failed), λ v k. absurd (ground (arith, failed)))
    | inr (content, got) ↦ elim (Result-cases (parse_judgment {E = E} decode content)) [
      | inl (e, bad) ↦ (ground (arith, got, bad), λ v k. absurd (ground (arith, got, bad)))
      | inr (j, parsed) ↦ (
        ground (arith, got, parsed),
        λ v k. (content, j, got, parsed, ground (arith, got, parsed)),
      )
    ]
  ]

  -- Run refuses a comment of at most 100 words without asking the model. A verdict is given only on a
  -- longer comment, and its judgment is decoded from the model's answer, has a summary, and has
  -- evidence if it finds an attack; it allows the comment exactly if the judgment finds a substantive
  -- argument and no attack, and has a reason for a denial exactly if it does not.
  pub run_moderator_lem :
      (comment : Text) (w : W)
      → Moderated comment w (run_moderator is_letter is_digit_rune generate decode comment w)
  run_moderator_lem comment w = record {
    short = run_short comment w;
    asked = λ long. (run_long comment w long).0;
    verdict = λ v h. elim (Bool-cases (leb (count_words is_letter is_digit_rune comment) 100)) [
      | inl few ↦ absurd (ground (arith, run_short comment w))
      | inr more ↦
          let long : 100 < count_words is_letter is_digit_rune comment = ground arith in
          let (content, j, got, parsed, built) = (run_long comment w long).1 v h in
          let (fine, (object, found, decoded)) = parse_judgment_inv {E = E} decode content parsed in
          (
            long,
            subst IsVerdict built (build_verdict-IsVerdict j fine),
            (
              content,
              object,
              got,
              found,
              decoded ∙ ap ok (judgment-build_verdict j ∙ ap (λ (x : Verdict). x.judgment) built),
            ),
          )
    ];
  }
