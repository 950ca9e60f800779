-- ===== src/Summaries/Bulk.antt =====
-- `summarize_bulk` of src/qfa/services/summarize.py. The aggregate is a summary whose id is not used.
use qualitative_feedback_ana.Prelude.{true, Option, none, some, List, [], ◌∷◌, ◌++◌, Text, codes}
use qualitative_feedback_ana.Domain.Errors.{Result, ok, ◌>>=◌}
use qualitative_feedback_ana.Domain.Records.{AnalysisRecord}
use qualitative_feedback_ana.Executor.{check_deadline_and_get_timeout, check_token_limit}
use qualitative_feedback_ana.Executor.Restoring.{deanonymize_json}
use qualitative_feedback_ana.Prompts.Envelope.{
  build_feedback_records_envelope, build_output_language_instruction,
}
use qualitative_feedback_ana.Citations.Links.{hyperlink_form_references}
use qualitative_feedback_ana.Summaries.Service.{
  SummarizeService, Summary, Flow, Moments, judge_summary,
}

pub record SummaryRequestModel : Type 0 where
  pub feedback_records : List AnalysisRecord
  pub output_language : Option Text
  pub prompt : Option Text
  pub espo_feedback_base_url : Option Text
  pub espo_meeting_base_url : Option Text

unfoldable pub additional_instructions : (prompt : Option Text) → Text
additional_instructions none = []
additional_instructions (some []) = []
additional_instructions (some (c ∷ prompt)) = codes "\nAdditional instructions: " ++ c ∷ prompt

module _ (s : SummarizeService) (flow : Flow (Summary s.floats)) (moments : Moments) where
  unfoldable pub bulk_system_message : SummaryRequestModel → Text
  unfolding build_output_language_instruction additional_instructions
  bulk_system_message request =
      (flow.prompt
        ++ build_output_language_instruction request.output_language (codes "title and summary"))
      ++ additional_instructions request.prompt

  unfoldable pub summarize_bulk : SummaryRequestModel → Result (Summary s.floats)
  unfolding bulk_system_message build_feedback_records_envelope check_token_limit
      check_deadline_and_get_timeout judge_summary deanonymize_json hyperlink_form_references
  summarize_bulk request =
      let user_message = build_feedback_records_envelope request.feedback_records true true in
      check_token_limit s.settings (bulk_system_message request) user_message >>= λ _.
      let (anonymized, mapping) = s.anonymize user_message in
      check_deadline_and_get_timeout s.settings moments.call_time moments.deadline >>= λ timeout.
      flow.complete (bulk_system_message request) anonymized timeout >>= λ structured.
      judge_summary s moments anonymized structured.summary >>= λ components.
      flow.model_validate_json (
        deanonymize_json s.deanonymize
          (flow.model_dump_json (record structured {
            quality_score = some (s.quality_score components);
            components = some components;
          }))
          mapping)
      >>= λ result. ok (record result {
        summary =
            hyperlink_form_references s.is_word request.feedback_records
              request.espo_feedback_base_url request.espo_meeting_base_url result.summary;
      })
