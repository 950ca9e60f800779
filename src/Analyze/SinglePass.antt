-- ===== src/Analyze/SinglePass.antt =====
-- `analyze_bulk` of src/qfa/services/analyze.py, with the settings of the service that `analyze_hierarchical` has. What the LLM answers is an
-- argument, and so are the readings of the clock.
pub mod Laws
use qualitative_feedback_ana.Prelude.{
  ℕ, ◌≡◌, refl, Bool, true, false, Option, none, some, List, [], ◌∷◌, ◌++◌, Text, codes,
  if◌then◌else◌, ap,
}
use qualitative_feedback_ana.Domain.Errors.{
  Error, Result, ok, err, ◌>>=◌, >>=-returned, ok-injective,
}
use qualitative_feedback_ana.Executor.{check_deadline_and_get_timeout, check_token_limit}
use qualitative_feedback_ana.Executor.Redaction.{Mapping, anonymize_records_and_prompt}
use qualitative_feedback_ana.Prompts.Envelope.{
  build_analyze_user_message, build_output_language_instruction,
}
use qualitative_feedback_ana.Trends.Table.{CodingTrendTable, build_coding_trend_table}
use qualitative_feedback_ana.Citations.Format.{format_record_citations}
use qualitative_feedback_ana.Analyze.Judge.{
  JudgeComponents, FailsAsJudge, is_judge_failure, parse_analyze_judge_response,
}
use qualitative_feedback_ana.Analyze.Hierarchical.{
  AnalyzeService, AnalysisRequestModel, restorable, period_or_default,
}

-- `LLMPort.complete` with a text as the response model.
abbrev pub Complete : Type 0
Complete = (system_message user_message : Text) (timeout : ℕ) → Result Text

-- The wording of the prompts, the connections and the clock.
pub record SinglePass : Type 0 where
  pub system_prompt : Text
  pub judge_prompt : (source_text analyst_prompt analysis : Text) → Text
  pub judge_user_message : Text
  pub complete : Complete
  pub judge_complete : Complete
  pub analyse_time : ℕ
  pub judge_time : ℕ

-- `JUDGE_UNAVAILABLE_EXPLANATION`
abbrev pub judge_unavailable_explanation : Text
judge_unavailable_explanation =
    codes "Judge unavailable; the quality score could not be computed for this analysis."

module _ (s : AnalyzeService) where
  -- The score, the explanation and the components.
  abbrev pub Judged : Type 0
  Judged = Option s.floats.Float × Text × Option (JudgeComponents s.floats)

  -- The fields of `AnalysisResultModel` that a single pass sets.
  pub record BulkResult : Type 0 where
    pub result : Text
    pub judged : Judged
    pub coding_trends : Option CodingTrendTable

  -- The `try` around the judge.
  unfoldable pub judge_or_unavailable : Result (JudgeComponents s.floats × Text) → Result Judged
  judge_or_unavailable (ok (components, explanation)) =
      ok (some (s.quality_score components), explanation, some components)
  judge_or_unavailable (err e) =
      if is_judge_failure e then ok (none, judge_unavailable_explanation, none) else err e

  module _ (request : AnalysisRequestModel) (deadline : ℕ) (anonymize : Bool) where
    -- The redacted message, the redacted prompt and the mapping.
    unfoldable pub redact_message : (user_message : Text) → Result (Text × Text × Mapping)
    unfolding anonymize_records_and_prompt build_analyze_user_message
    redact_message user_message = elim anonymize [
      | true ↦
          anonymize_records_and_prompt s.anonymize_batch request.feedback_records request.prompt
            true
          >>= λ redacted.
              let (records, prompt, mapping) = redacted in
              ok (build_analyze_user_message prompt records, prompt, mapping)
      | false ↦ ok (user_message, request.prompt, [])
    ]

    -- What is sent, with the redacted prompt and the mapping, and the answer to it.
    unfoldable pub analyse : SinglePass → Result (Text × Text × Mapping × Text)
    unfolding redact_message check_token_limit check_deadline_and_get_timeout
        build_output_language_instruction build_analyze_user_message
    analyse p =
        let system_message =
          p.system_prompt
          ++ build_output_language_instruction request.output_language (codes "analysis") in
        let user_message = build_analyze_user_message request.prompt request.feedback_records in
        check_token_limit s.settings system_message user_message >>= λ _.
        redact_message user_message >>= λ redacted.
        let (message, prompt, mapping) = redacted in
        check_deadline_and_get_timeout s.settings p.analyse_time deadline >>= λ timeout.
        p.complete system_message message timeout >>= λ answer.
        ok (message, prompt, mapping, answer)

    unfoldable pub judge_analysis :
        SinglePass → (message prompt answer : Text) → Result (JudgeComponents s.floats × Text)
    unfolding check_deadline_and_get_timeout build_output_language_instruction
        parse_analyze_judge_response
    judge_analysis p message prompt answer =
        check_deadline_and_get_timeout s.settings p.judge_time deadline >>= λ timeout.
        p.judge_complete
          (p.judge_prompt message prompt answer
            ++ build_output_language_instruction request.output_language
                (codes "uncertainty explanation"))
          p.judge_user_message timeout
        >>= λ reply. parse_analyze_judge_response s.floats s.unicode s.same_letter reply

    -- The answer with the restored values and the links.
    unfoldable pub cited_answer : (mapping : Mapping) (answer : Text) → Text
    unfolding restorable format_record_citations
    cited_answer mapping answer =
        format_record_citations s.unicode s.is_word s.is_letter request.feedback_records
          request.espo_feedback_base_url request.espo_meeting_base_url
          (if anonymize then s.deanonymize answer (restorable mapping) else answer)

    unfoldable pub analyze_bulk : SinglePass → Result BulkResult
    unfolding analyse judge_analysis judge_or_unavailable cited_answer build_coding_trend_table
    analyze_bulk p = analyse p >>= λ analysed.
        let (message, prompt, mapping, answer) = analysed in
        judge_or_unavailable (judge_analysis p message prompt answer) >>= λ judged. ok (record {
          result = cited_answer mapping answer;
          judged = judged;
          coding_trends =
              build_coding_trend_table s.unicode s.iso_week s.coding_trend_code_fields
                (period_or_default s request.period) request.feedback_records;
        })
