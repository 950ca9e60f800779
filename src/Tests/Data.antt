-- ===== src/Tests/Data.antt =====
-- Sample records.
use qualitative_feedback_ana.Prelude.{String, codes, none, some, List, [], ◌∷◌}
use qualitative_feedback_ana.Domain.Records.{
  AnalysisRecord, FeedbackRecordModel, FeedbackRecordMetadataModel, feedback, meeting,
}

abbrev pub dated : String → FeedbackRecordMetadataModel
dated created = record {
  created = codes created;
  coding_level_1 = some (codes "Health, Water");
  coding_level_2 = none;
  coding_level_3 = none;
}

abbrev pub form : (id content created : String) → FeedbackRecordModel
form id content created = record {
  id = codes id;
  content = codes content;
  metadata = dated created;
  url_id = codes id;
}

abbrev pub session : (id notes created : String) → AnalysisRecord
session id notes created = meeting (record {
  id = codes id;
  meeting_notes = codes notes;
  metadata = record {
    created = codes created;
    date_of_meeting = none;
    method_of_collection = none;
    format = none;
    project = none;
    location = none;
    age_group = none;
    gender = none;
    group_size = none;
  };
  url_id = codes "";
})

abbrev pub three : List AnalysisRecord
three =
    feedback (form "F-2" "no water" "2024-02-01")
    ∷ session "M-1" "long talk about food" "unknown"
    ∷ feedback (form "F-1" "thanks" "2024-01-05T10:00")
    ∷ []
