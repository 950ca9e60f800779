-- ===== src/Domain/Records.antt =====
-- The two record types of src/qfa/domain/models.py and the functions that read them alike.
use qualitative_feedback_ana.Prelude.{Text, Option, none, some, []}

pub record FeedbackRecordMetadataModel : Type 0 where
  pub created : Text
  pub coding_level_1 : Option Text
  pub coding_level_2 : Option Text
  pub coding_level_3 : Option Text

pub record FeedbackRecordModel : Type 0 where
  pub id : Text
  pub content : Text
  pub metadata : FeedbackRecordMetadataModel
  pub url_id : Text

pub record CommunityMeetingRecordMetadataModel : Type 0 where
  pub created : Text
  pub date_of_meeting : Option Text
  pub method_of_collection : Option Text
  pub format : Option Text
  pub project : Option Text
  pub location : Option Text
  pub age_group : Option Text
  pub gender : Option Text
  pub group_size : Option Text

pub record CommunityMeetingRecordModel : Type 0 where
  pub id : Text
  pub meeting_notes : Text
  pub metadata : CommunityMeetingRecordMetadataModel
  pub url_id : Text

-- The union type; `isinstance` is a match.
pub data AnalysisRecord : Type 0 where
  feedback : FeedbackRecordModel → AnalysisRecord
  meeting : CommunityMeetingRecordModel → AnalysisRecord

abbrev pub record_id : AnalysisRecord → Text
record_id (feedback r) = r.id
record_id (meeting r) = r.id

abbrev pub record_url_id : AnalysisRecord → Text
record_url_id (feedback r) = r.url_id
record_url_id (meeting r) = r.url_id

abbrev pub record_text : AnalysisRecord → Text
record_text (feedback r) = r.content
record_text (meeting r) = r.meeting_notes

-- `a or b` on `str | None`: the empty string is falsy too.
abbrev or_text : Option Text → Text → Text
or_text none other = other
or_text (some []) other = other
or_text (some t) other = t

abbrev pub record_date : AnalysisRecord → Text
record_date (feedback r) = r.metadata.created
record_date (meeting r) = or_text r.metadata.date_of_meeting r.metadata.created

-- `model_copy` with one field given anew.
abbrev pub with_record_text : AnalysisRecord → Text → AnalysisRecord
with_record_text (feedback r) t = feedback (record r { content = t })
with_record_text (meeting r) t = meeting (record r { meeting_notes = t })
