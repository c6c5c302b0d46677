-- ===== src/Moderator/Words.antt =====
-- CountWords counts what one pass over the text counts.
use miss_raspberry_agent.Prelude.{
  if◌then◌else◌, ℕ, ◌+◌, ◌≡◌, refl, Bool, true, false, ◌||◌, List, [], ◌∷◌, ◌++◌, arith, Text,
  is_space,
}
use miss_raspberry_agent.Moderator.{fields_from, is_han, scan_field, count_fields, count_words}

-- The number of characters in the three blocks of isHan
abbrev pub count_han : Text → ℕ
count_han [] = 0
count_han (c ∷ s) = (if is_han c then 1 else 0) + count_han s

space_not_han : (c : ℕ) → is_space c ≡ true → is_han c ≡ false
unfolding is_space is_han
space_not_han c h = ground arith

module _ (is_letter is_digit_rune : ℕ → Bool) where
  -- The number of the runs between spaces that have a letter or digit which is not Han; the flag says
  -- that the run which is being read is counted already.
  pub count_spelled : Bool → Text → ℕ
  count_spelled counted [] = 0
  count_spelled counted (c ∷ s) =
      let fresh = count_spelled false s in
      let word = count_spelled true s in
      let same = count_spelled counted s in
      if is_space c
      then fresh
      else if is_han c
      then same
      else if is_letter c || is_digit_rune c
      then (if counted then 0 else 1) + word
      else same

  scan_field-append :
      (cjk : ℕ) (word : Bool) (s : Text) (c : ℕ)
      → scan_field is_letter is_digit_rune cjk word (s ++ c ∷ []) ≡ (
          let (n, b) = scan_field is_letter is_digit_rune cjk word s in
          scan_field is_letter is_digit_rune n b (c ∷ []))
  unfolding scan_field
  scan_field-append cjk word [] c = refl
  scan_field-append cjk word (r ∷ s) c = ground (
    arith,
    scan_field-append (cjk + 1) word s c,
    scan_field-append cjk true s c,
    scan_field-append cjk word s c,
  )

  count_fields-eq-add :
      (n : ℕ) (fs : List Text)
      → count_fields is_letter is_digit_rune n fs ≡ n + count_fields is_letter is_digit_rune 0 fs
  unfolding count_fields
  count_fields-eq-add n [] = omega arith
  count_fields-eq-add n (f ∷ fs) =
      let (cjk, word) = scan_field is_letter is_digit_rune 0 false f in
      ground (
        arith,
        count_fields-eq-add (n + cjk + 1) fs,
        count_fields-eq-add (n + cjk) fs,
        count_fields-eq-add (0 + cjk + 1) fs,
        count_fields-eq-add (0 + cjk) fs,
      )

  count_fields_from :
      (field s : Text)
      → (let (cjk, word) = scan_field is_letter is_digit_rune 0 false field in
          count_fields is_letter is_digit_rune 0 (fields_from field s)
          ≡ cjk + (if word then 1 else 0) + count_han s + count_spelled word s)
  unfolding count_fields fields_from scan_field count_spelled
  count_fields_from [] [] = refl
  count_fields_from (r ∷ field) [] = ground arith
  count_fields_from [] (c ∷ s) =
      ground (arith, space_not_han c, count_fields_from [] s, count_fields_from (c ∷ []) s)
  count_fields_from (r ∷ field) (c ∷ s) =
      let (cjk, word) = scan_field is_letter is_digit_rune 0 false (r ∷ field) in
      ground (
        arith,
        space_not_han c,
        count_fields_from [] s,
        count_fields_from ((r ∷ field) ++ c ∷ []) s,
        scan_field-append 0 false (r ∷ field) c,
        count_fields-eq-add (cjk + 1) (fields_from [] s),
        count_fields-eq-add cjk (fields_from [] s),
      )

  -- CountWords counts each character of the three blocks that isHan tests, and each run between spaces that
  -- has a letter or digit, of whatever script, outside these blocks.
  pub count_words_lem :
      (s : Text) → count_words is_letter is_digit_rune s ≡ count_han s + count_spelled false s
  unfolding count_words scan_field
  count_words_lem s = omega (arith, count_fields_from [] s)
