-- ===== src/Coding/Reply.antt =====
-- `parse_judge_response` of src/qfa/services/judge_scoring.py. The pattern is matched by hand. White space, the characters
-- of a number and the first letter of `explanation` exclude one another, so a greedy run is the only one that can
-- succeed. `.+` takes the rest, and `strip` removes the same white space that `\s*` would have skipped.
use qualitative_feedback_ana.Prelude.{
  ℕ, ◌≡◌, refl, Bool, true, false, ◌||◌, ◌&&◌, Option, none, some, [], ◌∷◌, ◌++◌, Text, codes, ◌==◌,
  leb, any, if◌then◌else◌, Unicode, strip, lstrip, ascii, All, ◌+◌, arith,
}
use qualitative_feedback_ana.Domain.Errors.{Error, Result, ok, err, analysis_error}
use qualitative_feedback_ana.Coding.Scores.{Floats}

-- Each step of the pattern goes on where the one before it matched.
infixl 5 ◌>>=◌
abbrev ◌>>=◌ :
    {Here There : Type 0} (matched : Option Here) (step : Here → Option There) → Option There
none >>= step = none
some here >>= step = step here

-- `JudgeResponse`
pub record JudgeResponse (F : Floats) : Type 0 where
  pub score : F.Float
  pub explanation : Text

-- The longest prefix of such characters, and what follows it.
abbrev pub span : (ℕ → Bool) → Text → Text × Text
span p [] = ([], [])
span p (c ∷ s) = let (front, back) = span p s in if p c then (c ∷ front, back) else ([], c ∷ s)

-- `[0-9.]`
abbrev pub is_number_char : ℕ → Bool
is_number_char c = (leb b'0' c && leb c b'9') || c == b'.'

-- The number and the rest. `-?` takes a minus sign where there is one.
unfoldable pub match_digits : (sign : Text) → Text × Text → Option (Text × Text)
match_digits sign ([], back) = none
match_digits sign (c ∷ front, back) = some (sign ++ c ∷ front, back)

unfoldable pub match_number : Text → Option (Text × Text)
unfolding match_digits
match_number [] = none
match_number (c ∷ s) =
    if c == b'-'
    then match_digits (b'-' ∷ []) (span is_number_char s)
    else match_digits [] (span is_number_char (c ∷ s))

module _ (u : Unicode) (same_letter : ℕ → ℕ → Bool) where
  -- A literal of the pattern, under `IGNORECASE`.
  unfoldable pub match_word : (word text : Text) → Option Text
  match_word [] text = some text
  match_word (w ∷ word) [] = none
  match_word (w ∷ word) (c ∷ text) = if same_letter w c then match_word word text else none

  -- `\s*\n\s*`
  unfoldable pub match_line_break : Text → Option Text
  match_line_break s =
      let (gap, rest) = span u.is_space s in if any (λ c. c == 10) gap then some rest else none

  match_rest : Text → Option Text
  match_rest [] = none
  match_rest (c ∷ s) = some (strip u (c ∷ s))

  -- One attempt of the pattern: the number and the stripped explanation.
  match_score_at : Text → Option (Text × Text)
  unfolding match_word match_number match_digits match_line_break match_rest
  match_score_at s = do
    after_score ← match_word (codes "score:") s
    (number, after_number) ← match_number (lstrip u.is_space after_score)
    after_break ← match_line_break after_number
    after_word ← match_word (codes "explanation:") after_break
    explanation ← match_rest after_word
    some (number, explanation)

  -- `search`: the leftmost attempt that succeeds.
  search_score : Text → Option (Text × Text)
  unfolding match_score_at
  search_score [] = match_score_at []
  search_score (c ∷ s) = or_later (match_score_at (c ∷ s)) (search_score s)
    where
      or_later : Option (Text × Text) → Option (Text × Text) → Option (Text × Text)
      or_later none later = later
      or_later (some here) later = some here

  module _ (F : Floats) where
    response_of : (explanation : Text) → Option F.Float → Result (JudgeResponse F)
    response_of explanation none = err analysis_error
    response_of explanation (some score) = ok (record { score = score; explanation = explanation })

    read_match : Option (Text × Text) → Result (JudgeResponse F)
    unfolding response_of
    read_match none = err analysis_error
    read_match (some (number, explanation)) = response_of explanation (F.float number)

    unfoldable pub parse_judge_response : Text → Result (JudgeResponse F)
    unfolding read_match search_score
    parse_judge_response raw = read_match (search_score raw)

-- `IGNORECASE` on ASCII letters, for a pattern in lower case.
abbrev pub ascii_same_letter : ℕ → ℕ → Bool
ascii_same_letter w c = w == c || (leb b'A' c && (leb c b'Z' && w == c + 32))

span-append :
    (p : ℕ → Bool) (s : Text) (c : ℕ) (rest : Text)
    → All (λ d. p d ≡ true) s
    → p c ≡ false
    → span p (s ++ c ∷ rest) ≡ (s, c ∷ rest)
span-append p [] c rest h stop = rw stop refl
span-append p (d ∷ s) c rest h stop = rw (span-append p s c rest h.1 stop, h.0) refl

module _ (c : ℕ) (h : is_number_char c ≡ true) where
  number_not_space : ascii.is_space c ≡ false
  number_not_space = ground arith

  number_not_minus : (c == b'-') ≡ false
  number_not_minus = ground arith

module _ (c : ℕ) (number : Text) (digits : All (λ n. is_number_char n ≡ true) (c ∷ number)) where
  match_number_here :
      (rest : Text) → match_number ((c ∷ number) ++ 10 ∷ rest) ≡ some (c ∷ number, 10 ∷ rest)
  unfolding match_number match_digits
  match_number_here rest =
      rw
        (
          number_not_minus c digits.0,
          digits.0,
          span-append is_number_char number 10 rest digits.1 refl,
        )
        refl

  match_lines :
      (d : ℕ) (explanation : Text)
      → match_score_at ascii ascii_same_letter
          (codes "SCORE: " ++ ((c ∷ number) ++ (codes "\nEXPLANATION: " ++ d ∷ explanation)))
        ≡ some (c ∷ number, strip ascii (codes " " ++ d ∷ explanation))
  unfolding match_score_at match_word match_line_break match_rest
  match_lines d explanation =
      rw (number_not_space c digits.0, match_number_here (codes "EXPLANATION: " ++ d ∷ explanation))
        refl

-- The two lines that the prompts ask for, on the code points below 128: if `number` is not empty and has digits and dots
-- only, and something follows `EXPLANATION: `, then the reply is read as that number, where it is a float, and as the
-- stripped explanation.
pub parse_judge_response-lines :
    (F : Floats) (c : ℕ) (number : Text) (d : ℕ) (explanation : Text) {score : F.Float}
    → All (λ n. is_number_char n ≡ true) (c ∷ number)
    → F.float (c ∷ number) ≡ some score
    → parse_judge_response ascii ascii_same_letter F
        (codes "SCORE: " ++ ((c ∷ number) ++ (codes "\nEXPLANATION: " ++ d ∷ explanation)))
      ≡ ok (record { score = score; explanation = strip ascii (codes " " ++ d ∷ explanation) })
unfolding parse_judge_response read_match search_score response_of
parse_judge_response-lines F c number d explanation digits float =
    rw (match_lines c number digits d explanation, float) refl

-- Whatever the reply, nothing else than an AnalysisError is raised.
pub parse_judge_response_raises :
    (u : Unicode) (same_letter : ℕ → ℕ → Bool) (F : Floats) (raw : Text) {e : Error}
    → parse_judge_response u same_letter F raw ≡ err e
    → e ≡ analysis_error
unfolding parse_judge_response read_match response_of
parse_judge_response_raises u same_letter F raw {e} = go (search_score u same_letter raw)
  where
    unread :
        (explanation : Text) (score : Option F.Float)
        → response_of u same_letter F explanation score ≡ err e
        → e ≡ analysis_error
    unread explanation none h = cc
    unread explanation (some score) h = cc

    go :
        (found : Option (Text × Text))
        → read_match u same_letter F found ≡ err e
        → e ≡ analysis_error
    go none h = cc
    go (some (number, explanation)) h = unread explanation (F.float number) h
