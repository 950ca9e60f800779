-- ===== src/Sensitivity.antt =====
-- src/qfa/services/sensitivity.py: one classification and its judge. The LLM, the anonymizer, the wording of the prompts, pydantic's JSON and the readings
-- of the clock are parameters. A sensitivity type is its value.
pub mod Laws
use qualitative_feedback_ana.Prelude.{
  ℕ, Bool, true, not, ◌&&◌, Option, none, some, List, [], ◌∷◌, ◌++◌, Text, codes, join, Unicode,
  if◌then◌else◌,
}
use qualitative_feedback_ana.Domain.Errors.{Error, Result, ok, err, ◌>>=◌}
use qualitative_feedback_ana.Domain.Records.{FeedbackRecordModel}
use qualitative_feedback_ana.Executor.{ExecutorSettings, complete}
use qualitative_feedback_ana.Executor.Redaction.{Mapping}
use qualitative_feedback_ana.Executor.Restoring.{deanonymize_json}
use qualitative_feedback_ana.Prompts.Envelope.{build_feedback_record_envelope}
use qualitative_feedback_ana.Coding.Scores.{Floats}
use qualitative_feedback_ana.Coding.Reply.{JudgeResponse, parse_judge_response}
use qualitative_feedback_ana.Analyze.Judge.{is_judge_failure}

-- `SensitivityClassificationModel`
pub record Classification : Type 0 where
  pub feedback_record_id : Text
  pub sensitivity_types : List Text
  pub explanation : Text

-- `LLMPort.complete` with a response model.
abbrev pub Client : Type 0 → Type 0
Client Response = (system_message user_message tenant_id : Text) (timeout : ℕ) → Result Response

-- The parameters; `llm` and `judge_llm` are the two connections, with the models of their replies.
pub record SensitivityService : Type 1 where
  pub unicode : Unicode
  pub floats : Floats
  pub same_letter : ℕ → ℕ → Bool
  pub settings : ExecutorSettings
  pub detection_prompt : Text
  pub judge_prompt : Text
  pub anonymize : Text → Text × Mapping
  pub deanonymize : Text → Mapping → Text
  pub model_dump_json : List Classification → Text
  pub model_validate_json : Text → Result (List Classification)
  pub llm : Client (List Classification)
  pub judge_llm : Client Text

-- The request, with the moments of its two calls.
pub record SensitivityRequest : Type 0 where
  pub feedback_record : FeedbackRecordModel
  pub tenant_id : Text
  pub deadline : ℕ
  pub call_time : ℕ
  pub judge_time : ℕ

or_no_types : Text → Text
or_no_types [] = codes "none (not sensitive)"
or_no_types (c ∷ types) = c ∷ types

unfoldable pub build_sensitivity_judge_user_message :
    FeedbackRecordModel → Classification → (redact : Text → Text) → Text
unfolding build_feedback_record_envelope or_no_types
build_sensitivity_judge_user_message feedback_record classification redact =
    redact (
      build_feedback_record_envelope feedback_record (not true) (not true)
      ++ (codes "\n<classification_explanation>\n"
          ++ (classification.explanation ++ codes "\n</classification_explanation>")))
    ++ (codes "\n<sensitivity_types>\n"
        ++ (or_no_types (join (codes ", ") classification.sensitivity_types)
            ++ codes
                "\n</sensitivity_types>\n\n<instruction>\nEvaluate this classification.\n</instruction>"))

-- The first result, under the id of the record, or the classification of a reply without results.
unfoldable pub classification_of : (record_id : Text) → List Classification → Classification
classification_of record_id [] = record {
  feedback_record_id = record_id;
  sensitivity_types = [];
  explanation = codes "No sensitive content detected.";
}
classification_of record_id (raw ∷ results) = record {
  feedback_record_id = record_id;
  sensitivity_types = raw.sensitivity_types;
  explanation = raw.explanation;
}

module _ (s : SensitivityService) (request : SensitivityRequest) where
  -- The first call, and its reply with the redacted values restored.
  unfoldable pub classify : Result Classification
  unfolding build_feedback_record_envelope complete deanonymize_json classification_of
  classify =
      let user_message = build_feedback_record_envelope request.feedback_record true true in
      let (anonymized, mapping) = s.anonymize user_message in
      complete s.settings s.llm s.detection_prompt anonymized request.tenant_id request.call_time
        request.deadline
      >>= λ structured.
          s.model_validate_json
            (deanonymize_json s.deanonymize (s.model_dump_json structured) mapping)
          >>= λ results. ok (classification_of request.feedback_record.id results)

  -- The reply of the judge, read.
  unfoldable pub ask_judge : Classification → Result (JudgeResponse s.floats)
  unfolding build_sensitivity_judge_user_message complete parse_judge_response
  ask_judge classification =
      complete s.settings s.judge_llm s.judge_prompt
        (build_sensitivity_judge_user_message request.feedback_record classification
          (λ text. (s.anonymize text).0))
        request.tenant_id request.judge_time request.deadline
      >>= parse_judge_response s.unicode s.same_letter s.floats

  -- The `except`, and the range of the score.
  unfoldable pub score_or_none : Result (JudgeResponse s.floats) → Result (Option s.floats.Float)
  score_or_none (err e) = if is_judge_failure e then ok none else err e
  score_or_none (ok judged) =
      if s.floats.le s.floats.float_zero judged.score && s.floats.le judged.score s.floats.float_one
      then ok (some judged.score)
      else ok none

  unfoldable pub judge_classification : Classification → Result (Option s.floats.Float)
  unfolding ask_judge score_or_none
  judge_classification classification = score_or_none (ask_judge classification)

  -- `SensitivityAnalysisResultModel`: the classification and the confidence.
  unfoldable pub detect_sensitive_content : Result (Classification × Option s.floats.Float)
  unfolding classify judge_classification
  detect_sensitive_content = classify >>= λ classification.
      judge_classification classification >>= λ confidence. ok (classification, confidence)
