-- ===== src/Sensitivity/Laws.antt =====
-- What the judge has to do with the result of src/qfa/services/sensitivity.py.
use qualitative_feedback_ana.Prelude.{
  ◌≡◌, ◌&&◌, refl, sym, ◌∙◌, true, Option, none, some, List, [], ◌∷◌, Text, Bool-cases, inl, inr,
  &&-left, &&-right, ap, ℕ,
}
use qualitative_feedback_ana.Domain.Errors.{Result, ok, err, ◌>>=◌, >>=-returned, ok-injective}
use qualitative_feedback_ana.Executor.{complete, check_deadline_and_get_timeout}
use qualitative_feedback_ana.Coding.Reply.{
  JudgeResponse, parse_judge_response, parse_judge_response_raises,
}
use qualitative_feedback_ana.Analyze.Judge.{FailsAsJudge, FailsAsJudge-bind, is_judge_failure}
use qualitative_feedback_ana.Analyze.SinglePass.Laws.{check_deadline-FailsAsJudge}
use qualitative_feedback_ana.Sensitivity.{
  Classification, SensitivityService, SensitivityRequest, classification_of, classify, ask_judge,
  score_or_none, judge_classification, detect_sensitive_content,
}

parse_judge_response-FailsAsJudge :
    (s : SensitivityService) (raw : Text)
    → FailsAsJudge (parse_judge_response s.unicode s.same_letter s.floats raw)
parse_judge_response-FailsAsJudge s raw =
    go (parse_judge_response s.unicode s.same_letter s.floats raw) refl
  where
    go :
        (reply : Result (JudgeResponse s.floats))
        → parse_judge_response s.unicode s.same_letter s.floats raw ≡ reply
        → FailsAsJudge reply
    go (ok judged) e = tt
    go (err x) e =
        ap is_judge_failure (parse_judge_response_raises s.unicode s.same_letter s.floats raw e)

classification_of_id :
    (id : Text) (results : List Classification)
    → (classification_of id results).feedback_record_id ≡ id
unfolding classification_of
classification_of_id id [] = refl
classification_of_id id (raw ∷ results) = refl

module _ (s : SensitivityService) (request : SensitivityRequest) where
  -- From 0 to 1, where there is one.
  abbrev pub IsConfidence : Option s.floats.Float → Type 0
  IsConfidence none = Unit
  IsConfidence (some score) =
      (s.floats.le s.floats.float_zero score ≡ true) × (s.floats.le score s.floats.float_one ≡ true)

  -- Where there is a classification, a result has it; where there is none, the error is that of the classifier's call.
  abbrev pub IsDetected :
      Result Classification → Result (Classification × Option s.floats.Float) → Type 0
  IsDetected (err e) run = run ≡ err e
  IsDetected (ok classification) run =
      (confidence : Option s.floats.Float) × (run ≡ ok (classification, confidence))
      × IsConfidence confidence
      × (classification.feedback_record_id ≡ request.feedback_record.id)

  score_or_none_lem :
      (reply : Result (JudgeResponse s.floats))
      → FailsAsJudge reply
      → (confidence : Option s.floats.Float) × (score_or_none s request reply ≡ ok confidence)
        × IsConfidence confidence
  unfolding score_or_none
  score_or_none_lem (err e) fails = (none, rw fails refl, tt)
  score_or_none_lem (ok judged) fails =
      elim (Bool-cases (
        s.floats.le s.floats.float_zero judged.score
        && s.floats.le judged.score s.floats.float_one)) [
          | inl inside ↦
              (some judged.score, rw inside refl, (&&-left _ _ inside, &&-right _ _ inside))
          | inr outside ↦ (none, rw outside refl, tt)
        ]

  classify_id :
      {classification : Classification}
      → classify s request ≡ ok classification
      → classification.feedback_record_id ≡ request.feedback_record.id
  unfolding classify
  classify_id {classification} h =
      let (structured, _, validated) =
        >>=-returned
          (complete s.settings s.llm s.detection_prompt _ request.tenant_id request.call_time
            request.deadline)
          _ h in
      let (results, _, made) = >>=-returned (s.model_validate_json _) _ validated in
      ap (λ c. c.feedback_record_id) (sym (ok-injective made))
      ∙ classification_of_id request.feedback_record.id results

  module _
      (fails_as_judge : (system_message user_message tenant_id : Text) (timeout : ℕ)
        → FailsAsJudge (s.judge_llm system_message user_message tenant_id timeout)) where
    ask_judge-FailsAsJudge :
        (classification : Classification) → FailsAsJudge (ask_judge s request classification)
    unfolding ask_judge complete
    ask_judge-FailsAsJudge classification =
        FailsAsJudge-bind
          (complete s.settings s.judge_llm s.judge_prompt _ request.tenant_id request.judge_time
            request.deadline)
          _
          (FailsAsJudge-bind
            (check_deadline_and_get_timeout s.settings request.judge_time request.deadline) _
            (check_deadline-FailsAsJudge s.settings request.judge_time request.deadline)
            (λ timeout. fails_as_judge s.judge_prompt _ request.tenant_id timeout))
          (parse_judge_response-FailsAsJudge s)

    -- If the judge only fails as judges do, then the outcome is that of the classifier's call, whatever the judge does and however late it is: the
    -- same error, or a result with the same classification, for the record of the request, and with a confidence from 0 to 1 or none.
    pub detect_sensitive_content-IsDetected :
        IsDetected (classify s request) (detect_sensitive_content s request)
    unfolding detect_sensitive_content
    detect_sensitive_content-IsDetected = go (classify s request) refl
      where
        go :
            (classified : Result Classification)
            → classify s request ≡ classified
            → IsDetected classified (
                classified >>= λ classification.
                judge_classification s request classification >>= λ confidence.
                ok (classification, confidence))
        go (err e) same = refl
        go (ok classification) same =
            let (confidence, scored, inside) =
              score_or_none_lem (ask_judge s request classification)
                (ask_judge-FailsAsJudge classification) in
            (confidence, rw (judge_classification, scored) refl, inside, classify_id same)
