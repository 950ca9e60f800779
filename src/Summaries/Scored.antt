-- ===== src/Summaries/Scored.antt =====
-- What the judge has to do with the summaries of src/qfa/services/summarize.py.
use qualitative_feedback_ana.Prelude.{◌≡◌, refl, subst, Option, some, List, [], ◌∷◌, Text}
use qualitative_feedback_ana.Domain.Errors.{ok, >>=-returned, ok-injective}
use qualitative_feedback_ana.Domain.Records.{FeedbackRecordModel, CommunityMeetingRecordModel}
use qualitative_feedback_ana.Executor.{check_deadline_and_get_timeout}
use qualitative_feedback_ana.Analyze.Judge.{JudgeComponents}
use qualitative_feedback_ana.Analyze.Judge.Components.{InUnit, parse_judge_components-InUnit}
use qualitative_feedback_ana.Summaries.Service.{
  SummarizeService, Summary, Flow, Moments, judge_summary,
}
use qualitative_feedback_ana.Summaries.Single.{
  first_updated, judged_and_restored, summarize_record, summarize, summarize_community_meeting,
}

module _ (s : SummarizeService) (moments : Moments) where
  judge_summary-InUnit :
      (source_text summary : Text) {components : JudgeComponents s.floats}
      → judge_summary s moments source_text summary ≡ ok components
      → InUnit s.floats components
  unfolding judge_summary
  judge_summary-InUnit source_text summary h =
      let (timeout, _, replied) =
        >>=-returned (check_deadline_and_get_timeout s.settings moments.judge_time moments.deadline)
          _ h in
      let (reply, _, read) =
        >>=-returned (s.judge_complete _ s.judge_user_message timeout) _ replied in
      parse_judge_components-InUnit s.floats s.unicode s.same_letter reply read

module _ (s : SummarizeService) (flow : Flow (List (Summary s.floats))) (moments : Moments) where
  -- Under the id of its record, with the components of a judge, from 0 to 1, and their score.
  abbrev pub IsScored : (id : Text) → Summary s.floats → Type 0
  IsScored id report =
      (report.id ≡ id)
      × ((components : JudgeComponents s.floats) × (report.components ≡ some components)
          × (report.quality_score ≡ some (s.quality_score components))
          × InUnit s.floats components)

  first_updated-IsScored :
      (id : Text) (update : Text → Text) (components : JudgeComponents s.floats)
      (restored : List (Summary s.floats)) {report : Summary s.floats}
      → InUnit s.floats components
      → first_updated s flow moments
          (λ r. record r {
            id = id;
            summary = update r.summary;
            quality_score = some (s.quality_score components);
            components = some components;
          })
          restored
        ≡ ok report
      → IsScored id report
  unfolding first_updated
  first_updated-IsScored id update components [] inside h = cc
  first_updated-IsScored id update components (r ∷ restored) inside h =
      subst (IsScored id) (ok-injective h) (refl, (components, refl, refl, inside))

  judged_and_restored-IsScored :
      (anonymized : Text) (mapping : List (Text × Text)) (update : Text → Text) (id : Text)
      (answer : List (Summary s.floats)) {report : Summary s.floats}
      → judged_and_restored s flow moments anonymized mapping update id answer ≡ ok report
      → IsScored id report
  unfolding judged_and_restored
  judged_and_restored-IsScored anonymized mapping update id [] h = cc
  judged_and_restored-IsScored anonymized mapping update id (first ∷ summaries) h =
      let (components, judged, after) =
        >>=-returned (judge_summary s moments anonymized first.summary) _ h in
      let (restored, _, updated) = >>=-returned (flow.model_validate_json _) _ after in
      first_updated-IsScored id update components restored
        (judge_summary-InUnit s moments anonymized first.summary judged) updated

  summarize_record-IsScored :
      (content user_message : Text) (update : Text → Text) (id : Text) {report : Summary s.floats}
      → summarize_record s flow moments content user_message update id ≡ ok report
      → IsScored id report
  unfolding summarize_record
  summarize_record-IsScored content user_message update id h =
      let (timeout, _, called) =
        >>=-returned (check_deadline_and_get_timeout s.settings moments.call_time moments.deadline)
          _ h in
      let (answer, _, judged) = >>=-returned (flow.complete _ _ timeout) _ called in
      judged_and_restored-IsScored _ _ update id answer judged

  -- A summary of a feedback record that is returned has the id of the record, whatever id the LLM gave, and a score, with its components from 0 to 1.
  pub summarize-IsScored :
      (r : FeedbackRecordModel) {report : Summary s.floats}
      → summarize s flow moments r ≡ ok report
      → IsScored r.id report
  unfolding summarize
  summarize-IsScored r = summarize_record-IsScored r.content _ (λ summary. summary) r.id

  -- So has a summary of a community meeting.
  pub summarize_community_meeting-IsScored :
      (url : Option Text) (r : CommunityMeetingRecordModel) {report : Summary s.floats}
      → summarize_community_meeting s flow moments url r ≡ ok report
      → IsScored r.id report
  unfolding summarize_community_meeting
  summarize_community_meeting-IsScored url r = summarize_record-IsScored r.meeting_notes _ _ r.id
