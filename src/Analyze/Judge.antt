-- ===== src/Analyze/Judge.antt =====
-- The reply of the analysis judge: `parse_judge_components` of src/qfa/services/judge_scoring.py, `JudgeComponents` of
-- src/qfa/domain/models.py, and `_parse_analyze_judge_response` and `_judge_chunk` of src/qfa/services/analyze.py. A quality score is a float, rounded to two
-- decimals.
pub mod Components
use qualitative_feedback_ana.Prelude.{
  ℕ, ◌≡◌, refl, Bool, true, ◌&&◌, ◌||◌, Option, none, some, [], ◌∷◌, Text, codes, Unicode, strip,
  lstrip, if◌then◌else◌, Bool-cases, inl, inr,
}
use qualitative_feedback_ana.Domain.Errors.{
  Error, Result, ok, err, ◌>>=◌, analysis_error, validation_error, is_llm_error, is_analysis_error,
}
use qualitative_feedback_ana.Coding.Scores.{Floats}
use qualitative_feedback_ana.Coding.Reply.{match_word, match_number, match_line_break}

-- The result of one step of a pattern goes to the next.
abbrev and_then : {A B : Type 0} → Option A → (A → Option B) → Option B
and_then none next = none
and_then (some a) next = next a

-- The first of two attempts that matches.
abbrev or_else : {A : Type 0} → Option A → Option A → Option A
or_else none later = later
or_else (some here) later = some here

-- `except (LLMError, LLMTimeoutError, LLMRateLimitError, ValidationError, AnalysisError)`
abbrev pub is_judge_failure : Error → Bool
is_judge_failure validation_error = true
is_judge_failure e = is_llm_error e || is_analysis_error e

-- If it fails, then as a judge does.
abbrev pub FailsAsJudge : {A : Type 0} → Result A → Type 0
FailsAsJudge (ok a) = Unit
FailsAsJudge (err e) = is_judge_failure e ≡ true

pub FailsAsJudge-bind :
    {A B : Type 0} (call : Result A) (next : A → Result B)
    → FailsAsJudge call
    → ((a : A) → FailsAsJudge (next a))
    → FailsAsJudge (call >>= next)
FailsAsJudge-bind (ok a) next h k = k a
FailsAsJudge-bind (err e) next h k = h

module _ (F : Floats) where
  pub record JudgeComponents : Type 0 where
    pub faithfulness : F.Float
    pub coverage : F.Float
    pub clarity : F.Float

  abbrev pub in_unit : F.Float → Bool
  in_unit x = F.le F.float_zero x && F.le x F.float_one

  -- The three constraints; the ValidationError is turned into an AnalysisError.
  unfoldable pub validated_components :
      (faithfulness coverage clarity : F.Float) → Result JudgeComponents
  validated_components faithfulness coverage clarity =
      if in_unit faithfulness && (in_unit coverage && in_unit clarity)
      then ok record { faithfulness = faithfulness; coverage = coverage; clarity = clarity }
      else err analysis_error

  floats_of : Option F.Float → Option F.Float → Option F.Float → Result JudgeComponents
  unfolding validated_components
  floats_of (some faithfulness) (some coverage) (some clarity) =
      validated_components faithfulness coverage clarity
  floats_of _ _ _ = err analysis_error

  module _ (u : Unicode) (same_letter : ℕ → ℕ → Bool) where
    -- `faithfulness:`, `coverage:` and `clarity:`, each with a number, on lines of their own.
    match_components_at : Text → Option (Text × Text × Text)
    unfolding match_word match_number match_line_break
    match_components_at s =
        and_then (match_word u same_letter (codes "faithfulness:") s) (λ after_first.
          and_then (match_number (lstrip u.is_space after_first)) (λ (first, rest_1).
            and_then (match_line_break u same_letter rest_1) (λ line_2.
              and_then (match_word u same_letter (codes "coverage:") line_2) (λ after_second.
                and_then (match_number (lstrip u.is_space after_second)) (λ (second, rest_2).
                  and_then (match_line_break u same_letter rest_2) (λ line_3.
                    and_then (match_word u same_letter (codes "clarity:") line_3) (λ after_third.
                      and_then (match_number (lstrip u.is_space after_third))
                        (λ (third, _). some (first, second, third)))))))))

    search_components : Text → Option (Text × Text × Text)
    unfolding match_components_at
    search_components [] = match_components_at []
    search_components (c ∷ s) = or_else (match_components_at (c ∷ s)) (search_components s)

    unfoldable pub parse_judge_components : Text → Result JudgeComponents
    unfolding search_components floats_of
    parse_judge_components raw = elim (search_components raw) [
      | none ↦ err analysis_error
      | some (faithfulness, coverage, clarity) ↦
          floats_of (F.float faithfulness) (F.float coverage) (F.float clarity)
    ]

    -- `uncertainty_explanation:\s*(?P<explanation>.+)`. If only blanks follow, `\s*` gives back the last of them, which `strip` removes.
    match_explanation_at : Text → Option Text
    unfolding match_word
    match_explanation_at s = elim (match_word u same_letter (codes "uncertainty_explanation:") s) [
      | none ↦ none
      | some [] ↦ none
      | some (c ∷ rest) ↦ some (strip u (c ∷ rest))
    ]

    search_explanation : Text → Option Text
    unfolding match_explanation_at
    search_explanation [] = match_explanation_at []
    search_explanation (c ∷ s) = or_else (match_explanation_at (c ∷ s)) (search_explanation s)

    -- `uncertainty_explanation` has at least one character.
    explained : JudgeComponents → Option Text → Result (JudgeComponents × Text)
    explained components none = err analysis_error
    explained components (some []) = err validation_error
    explained components (some (c ∷ explanation)) = ok (components, c ∷ explanation)

    unfoldable pub parse_analyze_judge_response : Text → Result (JudgeComponents × Text)
    unfolding parse_judge_components search_explanation explained
    parse_analyze_judge_response raw =
        parse_judge_components raw >>= λ components. explained components (search_explanation raw)

    -- `reply` is how the judge's call ends; `quality_score` rounds the weighted sum of the components.
    unfoldable pub judge_chunk :
        (quality_score : JudgeComponents → F.Float) (partial : Option Text) (reply : Result Text)
        → Result (Option F.Float)
    unfolding parse_analyze_judge_response
    judge_chunk quality_score none reply = ok none
    judge_chunk quality_score (some partial) reply = elim (reply >>= parse_analyze_judge_response) [
      | ok (components, explanation) ↦ ok (some (quality_score components))
      | err e ↦ if is_judge_failure e then ok none else err e
    ]

    explained-FailsAsJudge :
        (components : JudgeComponents) (explanation : Option Text)
        → FailsAsJudge (explained components explanation)
    unfolding explained
    explained-FailsAsJudge components none = refl
    explained-FailsAsJudge components (some []) = refl
    explained-FailsAsJudge components (some (c ∷ explanation)) = tt

    floats_of-FailsAsJudge : (x y z : Option F.Float) → FailsAsJudge (floats_of x y z)
    unfolding floats_of
    floats_of-FailsAsJudge none y z = refl
    floats_of-FailsAsJudge (some x) none z = refl
    floats_of-FailsAsJudge (some x) (some y) none = refl
    floats_of-FailsAsJudge (some x) (some y) (some z) =
        elim (Bool-cases (in_unit x && (in_unit y && in_unit z))) [
          | inl inside ↦ rw inside tt
          | inr outside ↦ rw outside refl
        ]

    pub parse_analyze_judge_response-FailsAsJudge :
        (raw : Text) → FailsAsJudge (parse_analyze_judge_response raw)
    unfolding parse_analyze_judge_response
    parse_analyze_judge_response-FailsAsJudge raw =
        FailsAsJudge-bind (parse_judge_components raw) _ (go (search_components raw))
          (λ components. explained-FailsAsJudge components (search_explanation raw))
      where
        go :
            (found : Option (Text × Text × Text))
            → FailsAsJudge (elim found as (λ _. Result JudgeComponents) [
              | none ↦ err analysis_error
              | some (x, y, z) ↦ floats_of (F.float x) (F.float y) (F.float z)
            ])
        go none = refl
        go (some (x, y, z)) = floats_of-FailsAsJudge (F.float x) (F.float y) (F.float z)

    -- The judge of a chunk returns, with a score or without, unless its call raised something that is no failure of a judge.
    pub judge_chunk_returns :
        (quality_score : JudgeComponents → F.Float) (partial : Option Text) (reply : Result Text)
        → FailsAsJudge reply
        → (score : Option F.Float) × (judge_chunk quality_score partial reply ≡ ok score)
    unfolding judge_chunk
    judge_chunk_returns quality_score none reply h = (none, refl)
    judge_chunk_returns quality_score (some partial) reply h =
        go (reply >>= parse_analyze_judge_response)
          (FailsAsJudge-bind reply _ h parse_analyze_judge_response-FailsAsJudge)
      where
        go :
            (judged : Result (JudgeComponents × Text))
            → FailsAsJudge judged
            → (score : Option F.Float) × ((elim judged as (λ _. Result (Option F.Float)) [
              | ok (c, x) ↦ ok (some (quality_score c))
              | err e ↦ if is_judge_failure e then ok none else err e
            ])
                ≡ ok score)
        go (ok (c, x)) k = (some (quality_score c), refl)
        go (err e) k = (none, rw k refl)
