-- ===== src/Summaries/Single.antt =====
-- `summarize` and `summarize_community_meeting` of src/qfa/services/summarize.py, which go through the same steps.
use qualitative_feedback_ana.Prelude.{
  true, false, Option, none, some, List, [], ◌∷◌, ◌++◌, Text, codes,
}
use qualitative_feedback_ana.Domain.Errors.{Result, ok, err, ◌>>=◌, analysis_error, index_error}
use qualitative_feedback_ana.Domain.Records.{
  FeedbackRecordModel, CommunityMeetingRecordModel, meeting,
}
use qualitative_feedback_ana.Executor.{check_deadline_and_get_timeout}
use qualitative_feedback_ana.Executor.Restoring.{deanonymize_json}
use qualitative_feedback_ana.Prompts.Envelope.{
  build_feedback_record_envelope, build_community_meeting_record_envelope,
  build_output_language_instruction,
}
use qualitative_feedback_ana.Citations.Links.{hyperlink_form_references}
use qualitative_feedback_ana.Summaries.Language.{detect_source_language}
use qualitative_feedback_ana.Summaries.Service.{
  SummarizeService, Summary, Flow, Moments, judge_summary,
}

module _ (s : SummarizeService) (flow : Flow (List (Summary s.floats))) (moments : Moments) where
  -- `result.summaries[0].model_copy(update=...)`
  unfoldable pub first_updated :
      (update : Summary s.floats → Summary s.floats)
      → List (Summary s.floats)
      → Result (Summary s.floats)
  first_updated update [] = err index_error
  first_updated update (first ∷ summaries) = ok (update first)

  -- After the answer of the LLM.
  unfoldable pub judged_and_restored :
      (anonymized : Text) (mapping : List (Text × Text)) (update : Text → Text) (id : Text)
      → List (Summary s.floats)
      → Result (Summary s.floats)
  unfolding judge_summary deanonymize_json first_updated
  judged_and_restored anonymized mapping update id [] = err analysis_error
  judged_and_restored anonymized mapping update id (first ∷ summaries) =
      judge_summary s moments anonymized first.summary >>= λ components.
      flow.model_validate_json
        (deanonymize_json s.deanonymize (flow.model_dump_json (first ∷ summaries)) mapping)
      >>= first_updated (λ restored. record restored {
        id = id;
        summary = update restored.summary;
        quality_score = some (s.quality_score components);
        components = some components;
      })

  unfoldable pub summarize_record :
      (content user_message : Text) (update : Text → Text) (id : Text) → Result (Summary s.floats)
  unfolding check_deadline_and_get_timeout detect_source_language build_output_language_instruction
      judged_and_restored
  summarize_record content user_message update id =
      check_deadline_and_get_timeout s.settings moments.call_time moments.deadline >>= λ timeout.
      let language =
        detect_source_language s.unicode s.floats s.min_detection_probability s.best_guess
          content in
      let (anonymized, mapping) = s.anonymize user_message in
      flow.complete
        (flow.prompt ++ build_output_language_instruction language (codes "title and summary"))
        anonymized timeout
      >>= judged_and_restored anonymized mapping update id

  unfoldable pub summarize : FeedbackRecordModel → Result (Summary s.floats)
  unfolding summarize_record build_feedback_record_envelope
  summarize r =
      summarize_record r.content (build_feedback_record_envelope r false true) (λ summary. summary)
        r.id

  unfoldable pub summarize_community_meeting :
      (espo_meeting_base_url : Option Text)
      → CommunityMeetingRecordModel
      → Result (Summary s.floats)
  unfolding summarize_record build_community_meeting_record_envelope hyperlink_form_references
  summarize_community_meeting espo_meeting_base_url r =
      summarize_record r.meeting_notes (build_community_meeting_record_envelope r true true)
        (hyperlink_form_references s.is_word (meeting r ∷ []) none espo_meeting_base_url) r.id
