-- ===== src/Analyze/Phases.antt =====
-- The map phase, the leaf judging and the confidence of `analyze_hierarchical` in src/qfa/services/analyze.py. Scores are floats.
use qualitative_feedback_ana.Prelude.{
  ℕ, zero, suc, ◌+◌, ◌-◌, ◌&&◌, Option, none, some, List, [], ◌∷◌, ◌++◌, map, Text, codes, length,
  ltb, ◌==◌, if◌then◌else◌, replicate,
}
use qualitative_feedback_ana.Prelude.Decimal.{decimal}
use qualitative_feedback_ana.Coding.Scores.{Floats, min_from}
use qualitative_feedback_ana.Domain.Errors.{
  Error, Result, ok, err, analysis_error, analysis_timeout, llm_timeout,
}
use qualitative_feedback_ana.Domain.Gather.{failures, gather}

abbrev pub partial_of : Result Text → Option Text
partial_of (ok partial) = some partial
partial_of (err e) = none

-- What `gather` with `return_exceptions=True` gives is split; if all of the chunks failed, so does the analysis.
unfoldable pub map_phase : List (Result Text) → Result (List (Option Text))
map_phase outcomes =
    let failed = length (failures outcomes) in
    if ltb 0 failed && failed == length outcomes
    then err analysis_error
    else ok (map partial_of outcomes)

abbrev pub present : {A : Type 0} → List (Option A) → List A
present [] = []
present (none ∷ xs) = present xs
present (some x ∷ xs) = x ∷ present xs

-- `except (LLMTimeoutError, AnalysisTimeoutError)` around the judges.
unfoldable pub judge_phase :
    {Score : Type 0} (first_raised : Error → List Error → Error)
    → List (Result (Option Score))
    → Result (List (Option Score))
unfolding gather
judge_phase {Score} first_raised judged = elim (gather first_raised judged) [
  | ok scores ↦ ok scores
  | err e ↦ elim e as (λ _. Result (List (Option Score))) [
    | llm_timeout status ↦ ok (replicate (length judged) none)
    | analysis_timeout ↦ ok (replicate (length judged) none)
    | _ ↦ err e
  ]
]

-- The scores that are there, with the sizes of their chunks. A `zip` with `strict`.
unfoldable pub weighed :
    {Score : Type 0} → List (Option Score) → (sizes : List ℕ) → List (Score × ℕ)
weighed (some score ∷ scores) (size ∷ sizes) = (score, size) ∷ weighed scores sizes
weighed (none ∷ scores) (size ∷ sizes) = weighed scores sizes
weighed _ _ = []

abbrev pub total_of : List ℕ → ℕ
total_of [] = 0
total_of (weight ∷ weights) = weight + total_of weights

unfoldable pub excluded_note : (excluded : ℕ) → Text
excluded_note zero = []
excluded_note (suc n) =
    codes " (" ++ (decimal (suc n) ++ codes " chunk(s) excluded: judge failed or timed out)")

module _ (F : Floats) where
  unfoldable pub coverage_weighted_mean : List (F.Float × ℕ) → F.Float
  coverage_weighted_mean judged =
      let total_weight = total_of (map (λ p. p.1) judged) in
      if total_weight == 0
      then F.float_zero
      else F.over (F.sum (map (λ p. F.times p.0 p.1) judged)) total_weight

  -- By how many chunks there are, how many of them have scores, and the least of these.
  unfoldable pub uncertainty_of : (chunks judged : ℕ) (floor : F.Float) → Text
  unfolding excluded_note
  uncertainty_of chunks judged floor =
      codes "Leaf-judged confidence is a coverage-weighted mean over "
      ++ (decimal judged
          ++ (codes " of "
              ++ (decimal chunks
                  ++ (codes " chunk(s)"
                      ++ (excluded_note (chunks - judged)
                          ++ (codes "; the lowest single-chunk faithfulness was "
                              ++ (F.two_decimals floor ++ codes ".")))))))

  -- The confidence and its explanation.
  unfoldable pub confidence_of : (chunks : ℕ) (judged : List (F.Float × ℕ)) → Option F.Float × Text
  unfolding coverage_weighted_mean uncertainty_of min_from
  confidence_of chunks [] = (
    none,
    codes "Confidence unavailable: none of the "
        ++ (decimal chunks
            ++ codes " chunk(s) could be leaf-judged (all judge calls failed or timed out)."),
  )
  confidence_of chunks ((score, weight) ∷ judged) = (
    some (coverage_weighted_mean ((score, weight) ∷ judged)),
    uncertainty_of chunks (suc (length judged)) (min_from F score (map (λ p. p.0) judged)),
  )
