-- ===== src/LlmClient/Injection.antt =====
-- `LiteLLMClient._check_injection` and `_check_token_limit` of src/qfa/adapters/llm_client.py. The three patterns are matched by hand:
-- the first is anchored at the start of the message, the third does not match a line feed.
use qualitative_feedback_ana.Prelude.{
  &&-left, &&-right, ℕ, ◌/◌, ◌≡◌, ◌≢◌, refl, ap, Bool, true, false, not, ◌&&◌, ◌||◌, List, [], ◌∷◌,
  ◌++◌, any, Text, codes, starts_with, starts_with-append, starts_with-eq, lstrip, Unicode,
  replicate, ltb, length, if◌then◌else◌, ◌==◌, arith, Bool-cases, inl, inr, ◌↔◌, All, sym, subst,
  ◌∙◌,
}
use qualitative_feedback_ana.Domain.Records.{AnalysisRecord}
use qualitative_feedback_ana.Prompts.Envelope.{build_analyze_user_message}
use qualitative_feedback_ana.Domain.Errors.{
  Result, ok, err, prompt_injection_detected, feedback_too_large,
}

-- `ignore_case p c`: whether the letter `p` of a pattern matches the character `c` under `re.IGNORECASE`.
module _ (u : Unicode) (ignore_case : (p c : ℕ) → Bool) where
  -- A role, blanks and a colon. No character of a role is a blank, so the blanks are taken greedily.
  role_and_colon : (role message : Text) → Bool
  role_and_colon [] message = starts_with (codes ":") (lstrip u.is_space message)
  role_and_colon (p ∷ role) [] = false
  role_and_colon (p ∷ role) (c ∷ message) = ignore_case p c && role_and_colon role message

  unfoldable pub role_prefix : (message : Text) → Bool
  unfolding role_and_colon
  role_prefix message =
      any (λ role. role_and_colon role (lstrip u.is_space message))
        (codes "SYSTEM" ∷ codes "ASSISTANT" ∷ codes "USER" ∷ [])

-- The pattern `\x00`.
unfoldable pub null_byte : (message : Text) → Bool
null_byte message = any (λ c. c == 0) message

-- `(.)\1{more,}`: a character that is no line feed, and then as many of it again.
unfoldable pub repeated : (more : ℕ) (message : Text) → Bool
repeated more [] = false
repeated more (c ∷ message) =
    (not (c == 10) && starts_with (replicate more c) message) || repeated more message

unfoldable pub repeated_chars : (message : Text) → Bool
unfolding repeated
repeated_chars message = repeated 199 message

module _ (u : Unicode) (ignore_case : (p c : ℕ) → Bool) where
  unfoldable pub check_injection : (user_message : Text) → Result (Unit {0})
  unfolding role_prefix null_byte repeated_chars
  check_injection user_message =
      if role_prefix u ignore_case user_message
        || (null_byte user_message || repeated_chars user_message)
      then err prompt_injection_detected
      else ok tt

unfoldable pub check_message_tokens :
    (chars_per_token max_total_tokens : ℕ) (system_message user_message : Text) → Result (Unit {0})
check_message_tokens chars_per_token max_total_tokens system_message user_message =
    let estimated_tokens = length (system_message ++ user_message) / chars_per_token in
    if ltb max_total_tokens estimated_tokens
    then err (feedback_too_large estimated_tokens max_total_tokens)
    else ok tt

-- Characters that are no line feed stand in a row.
abbrev pub HasRun : (more : ℕ) (message : Text) → Type 0
HasRun more message =
    (front : Text) × (back : Text) × (c : ℕ) × (c ≢ 10)
    × (message ≡ front ++ (c ∷ (replicate more c ++ back)))

repeated-run :
    (more : ℕ) (front back : Text) (c : ℕ)
    → c ≢ 10
    → repeated more (front ++ (c ∷ (replicate more c ++ back))) ≡ true
unfolding repeated
repeated-run more [] back c h = rw (starts_with-append (replicate more c) back) (ground arith)
repeated-run more (d ∷ front) back c h = ground (arith, repeated-run more front back c h)

repeated-HasRun : (more : ℕ) (message : Text) → repeated more message ≡ true → HasRun more message
unfolding repeated
repeated-HasRun more [] h = cc
repeated-HasRun more (c ∷ message) h =
    elim (Bool-cases (not (c == 10) && starts_with (replicate more c) message)) [
      | inl here ↦
          let (back, e) =
            starts_with-eq (replicate more c) message (&&-right (not (c == 10)) _ here) in
          ([], back, c, not_line_feed c (&&-left (not (c == 10)) _ here), ap (◌∷◌ c) e)
      | inr later ↦
          let (front, back, d, n, e) = repeated-HasRun more message (rest_of _ _ later h) in
          (c ∷ front, back, d, n, ap (◌∷◌ c) e)
    ]
  where
    not_line_feed : (d : ℕ) → not (d == 10) ≡ true → d ≢ 10
    not_line_feed d t = ground arith

    rest_of : (a b : Bool) → a ≡ false → (a || b) ≡ true → b ≡ true
    rest_of a b e t = ground arith

HasRun-repeated : (more : ℕ) (message : Text) → HasRun more message → repeated more message ≡ true
HasRun-repeated more message (front, back, c, n, e) =
    subst (λ m. repeated more m ≡ true) (sym e) (repeated-run more front back c n)

repeated_chars_iff : (message : Text) → (repeated_chars message ≡ false) ↔ (¬ HasRun 199 message)
unfolding repeated_chars
repeated_chars_iff message = (
  λ e run. true_false (sym (HasRun-repeated 199 message run) ∙ e),
  λ no_run. elim (Bool-cases (repeated 199 message)) [
    | inl e ↦ absurd (no_run (repeated-HasRun 199 message e))
    | inr e ↦ e
  ],
)
  where
    true_false : true ≢ false
    true_false e = cc

null_byte_iff : (message : Text) → (null_byte message ≡ false) ↔ All (λ c. c ≢ 0) message
unfolding null_byte
null_byte_iff message = (no_null message, null_free message)
  where
    no_null : (s : Text) → any (λ c. c == 0) s ≡ false → All (λ c. c ≢ 0) s
    no_null [] e = tt
    no_null (c ∷ s) e = (ground arith, no_null s (ground arith))

    null_free : (s : Text) → All (λ c. c ≢ 0) s → any (λ c. c == 0) s ≡ false
    null_free [] h = refl
    null_free (c ∷ s) h = rw (null_free s h.1) (ground arith)

tests :
    (a b c : Bool)
    → ((if a || (b || c) then err prompt_injection_detected else ok (tt {0})) ≡ ok tt)
      ↔ ((a ≡ false) × (b ≡ false) × (c ≡ false))
tests true b c = (λ e. cc, λ h. cc h.0)
tests false true c = (λ e. cc, λ h. cc h.1)
tests false false true = (λ e. cc, λ h. cc h.2)
tests false false false = (λ e. (refl, refl, refl), λ h. refl)

-- A message passes if and only if it does not begin with a role, has no null character, and has no two hundred
-- equal characters in a row, line feeds aside.
pub check_injection_iff :
    (u : Unicode) (ignore_case : (p c : ℕ) → Bool) (message : Text)
    → (check_injection u ignore_case message ≡ ok tt) ↔ (
        (role_prefix u ignore_case message ≡ false)
        × All (λ c. c ≢ 0) message
        × ¬ HasRun 199 message)
check_injection_iff u ignore_case message =
    unfold check_injection in
    (
      λ e.
          let (a, b, c) = (tests _ _ _).0 e in
          (a, (null_byte_iff message).0 b, (repeated_chars_iff message).0 c),
      λ h. (tests _ _ _).1 (h.0, (null_byte_iff message).1 h.1, (repeated_chars_iff message).1 h.2),
    )

role_prefix_first :
    (u : Unicode) (ignore_case : (p c : ℕ) → Bool) (c : ℕ) (rest : Text)
    → u.is_space c ≡ false
    → ignore_case b'S' c ≡ false
    → ignore_case b'A' c ≡ false
    → ignore_case b'U' c ≡ false
    → role_prefix u ignore_case (c ∷ rest) ≡ false
unfolding role_prefix
role_prefix_first u ignore_case c rest no_blank s a v = rw (no_blank, s, a, v) refl

-- The analyze message begins with a tag, so the pattern for a role never matches it, if `<` is neither a blank nor
-- the first letter of a role in another case.
role_prefix-build_analyze_user_message :
    (u : Unicode) (ignore_case : (p c : ℕ) → Bool) (analyst_prompt : Text)
    (records : List AnalysisRecord)
    → u.is_space b'<' ≡ false
    → ignore_case b'S' b'<' ≡ false
    → ignore_case b'A' b'<' ≡ false
    → ignore_case b'U' b'<' ≡ false
    → role_prefix u ignore_case (build_analyze_user_message analyst_prompt records) ≡ false
unfolding build_analyze_user_message
role_prefix-build_analyze_user_message u ignore_case analyst_prompt records no_blank s a v =
    role_prefix_first u ignore_case b'<' _ no_blank s a v
