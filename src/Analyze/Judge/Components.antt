-- ===== src/Analyze/Judge/Components.antt =====
-- What the replies that `parse_judge_components` and `_parse_analyze_judge_response` read hold: scores from 0 to 1.
use qualitative_feedback_ana.Prelude.{
  ℕ, ◌≡◌, ◌≢◌, refl, subst, arith, Bool, true, ◌&&◌, Option, none, some, [], ◌∷◌, Text, Unicode,
  Bool-cases, inl, inr, &&-left, &&-right,
}
use qualitative_feedback_ana.Domain.Errors.{
  Result, ok, err, analysis_error, >>=-returned, ok-injective,
}
use qualitative_feedback_ana.Coding.Scores.{Floats}
use qualitative_feedback_ana.Analyze.Judge.{
  JudgeComponents, in_unit, validated_components, floats_of, search_components, search_explanation,
  parse_judge_components, explained, parse_analyze_judge_response, FailsAsJudge,
  floats_of-FailsAsJudge,
}

module _ (F : Floats) where
  -- All three components lie between 0 and 1.
  abbrev pub InUnit : JudgeComponents F → Type 0
  InUnit c =
      (in_unit F c.faithfulness ≡ true)
      × (in_unit F c.coverage ≡ true)
      × (in_unit F c.clarity ≡ true)

  validated_components-InUnit :
      (x y z : F.Float) {c : JudgeComponents F} → validated_components F x y z ≡ ok c → InUnit c
  unfolding validated_components
  validated_components-InUnit x y z {c} h =
      elim (Bool-cases (in_unit F x && (in_unit F y && in_unit F z))) [
        | inl inside ↦
            let made : JudgeComponents F = record { faithfulness = x; coverage = y; clarity = z } in
            let same : made ≡ c = ok-injective (rw inside at h) in
            subst InUnit same (
              &&-left _ _ inside,
              &&-left _ _ (&&-right _ _ inside),
              &&-right _ _ (&&-right _ _ inside),
            )
        | inr outside ↦ cc (rw outside at h)
      ]

  floats_of-InUnit :
      (x y z : Option F.Float) {c : JudgeComponents F} → floats_of F x y z ≡ ok c → InUnit c
  unfolding floats_of
  floats_of-InUnit none y z h = cc
  floats_of-InUnit (some x) none z h = cc
  floats_of-InUnit (some x) (some y) none h = cc
  floats_of-InUnit (some x) (some y) (some z) h = validated_components-InUnit x y z h

  module _ (u : Unicode) (same_letter : ℕ → ℕ → Bool) where
    pub parse_judge_components-InUnit :
        (raw : Text) {c : JudgeComponents F}
        → parse_judge_components F u same_letter raw ≡ ok c
        → InUnit c
    unfolding parse_judge_components
    parse_judge_components-InUnit raw {c} h = go (search_components F u same_letter raw) h
      where
        go :
            (found : Option (Text × Text × Text))
            → (elim found as (λ _. Result (JudgeComponents F)) [
              | none ↦ err analysis_error
              | some (x, y, z) ↦ floats_of F (F.float x) (F.float y) (F.float z)
            ])
              ≡ ok c
            → InUnit c
        go none e = cc
        go (some (x, y, z)) e = floats_of-InUnit (F.float x) (F.float y) (F.float z) e

    pub parse_judge_components-FailsAsJudge :
        (raw : Text) → FailsAsJudge (parse_judge_components F u same_letter raw)
    unfolding parse_judge_components
    parse_judge_components-FailsAsJudge raw = go (search_components F u same_letter raw)
      where
        go :
            (found : Option (Text × Text × Text))
            → FailsAsJudge (elim found as (λ _. Result (JudgeComponents F)) [
              | none ↦ err analysis_error
              | some (x, y, z) ↦ floats_of F (F.float x) (F.float y) (F.float z)
            ])
        go none = refl
        go (some (x, y, z)) =
            floats_of-FailsAsJudge F u same_letter (F.float x) (F.float y) (F.float z)

    explained_lem :
        (components : JudgeComponents F) (explanation : Option Text) {c : JudgeComponents F}
        {x : Text}
        → explained F u same_letter components explanation ≡ ok (c, x)
        → (components ≡ c) × (x ≢ [])
    unfolding explained
    explained_lem components none h = cc
    explained_lem components (some []) h = cc
    explained_lem components (some (d ∷ explanation)) h = ground arith

    -- A reply that is read has components from 0 to 1 and an explanation that is not empty.
    pub parse_analyze_judge_response-InUnit :
        (raw : Text) {c : JudgeComponents F} {x : Text}
        → parse_analyze_judge_response F u same_letter raw ≡ ok (c, x)
        → InUnit c × (x ≢ [])
    unfolding parse_analyze_judge_response
    parse_analyze_judge_response-InUnit raw {c} {x} h =
        let (components, read, explains) =
          >>=-returned (parse_judge_components F u same_letter raw) _ h in
        let (same, nonempty) =
          explained_lem components (search_explanation F u same_letter raw) explains in
        (subst InUnit same (parse_judge_components-InUnit raw read), nonempty)
