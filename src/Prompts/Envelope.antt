-- ===== src/Prompts/Envelope.antt =====
-- The envelope builders of src/qfa/services/prompts.py. `metadata_items` is
-- `metadata.model_dump(exclude_defaults=True).items()`, in the order of the fields.
pub mod Markup
use qualitative_feedback_ana.Prelude.{
  Bool, true, false, Option, none, some, List, [], ◌∷◌, ◌++◌, map, Text, codes, join, if◌then◌else◌,
}
use qualitative_feedback_ana.Domain.Records.{
  FeedbackRecordMetadataModel, FeedbackRecordModel, CommunityMeetingRecordMetadataModel,
  CommunityMeetingRecordModel, AnalysisRecord, feedback, meeting,
}
use qualitative_feedback_ana.Prompts.Escape.{escape_for_tag_envelope, xml_quoteattr}

abbrev item : Text → Option Text → List (Text × Text)
item name none = []
item name (some value) = (name, value) ∷ []

-- The default of `created` is the empty string.
abbrev created_item : Text → List (Text × Text)
created_item [] = []
created_item (c ∷ s) = (codes "created", c ∷ s) ∷ []

pub metadata_items : FeedbackRecordMetadataModel → List (Text × Text)
metadata_items m =
    created_item m.created
    ++ (item (codes "coding_level_1") m.coding_level_1
        ++ (item (codes "coding_level_2") m.coding_level_2
            ++ item (codes "coding_level_3") m.coding_level_3))

pub meeting_items : CommunityMeetingRecordMetadataModel → List (Text × Text)
meeting_items m =
    created_item m.created
    ++ (item (codes "dateOfMeeting") m.date_of_meeting
        ++ (item (codes "methodOfCollection") m.method_of_collection
            ++ (item (codes "format") m.format
                ++ (item (codes "project") m.project
                    ++ (item (codes "location") m.location
                        ++ (item (codes "ageGroup") m.age_group
                            ++ (item (codes "gender") m.gender
                                ++ item (codes "groupSize") m.group_size)))))))

metadata_line : Text × Text → Text
metadata_line e =
    codes "      " ++ (escape_for_tag_envelope e.0 ++ (codes "=" ++ escape_for_tag_envelope e.1))

metadata_lines : List (Text × Text) → Text
unfolding metadata_line
metadata_lines items = join (codes "\n") (map metadata_line items)

-- A block only where there are lines.
metadata_block : Text → Text
metadata_block [] = []
metadata_block (c ∷ s) = codes "    <metadata>\n" ++ ((c ∷ s) ++ codes "\n    </metadata>\n")

id_attr : Bool → Text → Text
id_attr include_id id = if include_id then codes " id=" ++ xml_quoteattr id else []

-- Both builders fill the same shape, with tags of their own.
record_envelope :
    (tag id text : Text) → List (Text × Text) → (include_metadata include_id : Bool) → Text
unfolding id_attr metadata_block metadata_lines
record_envelope tag id text items include_metadata include_id =
    codes "  <"
    ++ (tag
        ++ (id_attr include_id id
            ++ (codes ">\n    <text>"
                ++ (escape_for_tag_envelope text
                    ++ (codes "</text>\n"
                        ++ ((if include_metadata then metadata_block (metadata_lines items) else [])
                            ++ (codes "  </" ++ (tag ++ codes ">"))))))))

unfoldable pub build_feedback_record_envelope :
    FeedbackRecordModel → (include_metadata include_id : Bool) → Text
unfolding record_envelope metadata_items
build_feedback_record_envelope r =
    record_envelope (codes "feedback_record") r.id r.content (metadata_items r.metadata)

unfoldable pub build_community_meeting_record_envelope :
    CommunityMeetingRecordModel → (include_metadata include_id : Bool) → Text
unfolding record_envelope meeting_items
build_community_meeting_record_envelope r =
    record_envelope (codes "community_meeting_record") r.id r.meeting_notes
      (meeting_items r.metadata)

record_block : (include_metadata include_id : Bool) → AnalysisRecord → Text
record_block include_metadata include_id (feedback r) =
    build_feedback_record_envelope r include_metadata include_id
record_block include_metadata include_id (meeting r) =
    build_community_meeting_record_envelope r include_metadata include_id

unfoldable pub build_feedback_records_envelope :
    List AnalysisRecord → (include_metadata include_id : Bool) → Text
unfolding record_block build_feedback_record_envelope build_community_meeting_record_envelope
build_feedback_records_envelope records include_metadata include_id =
    codes "<feedback_records>\n"
    ++ (join (codes "\n") (map (record_block include_metadata include_id) records)
        ++ codes "\n</feedback_records>")

unfoldable pub build_analyze_user_message : (analyst_prompt : Text) → List AnalysisRecord → Text
unfolding build_feedback_records_envelope
build_analyze_user_message analyst_prompt records =
    codes "<analyst_instruction>\n"
    ++ (escape_for_tag_envelope analyst_prompt
        ++ (codes "\n</analyst_instruction>\n\n"
            ++ build_feedback_records_envelope records true true))

-- The suffix is empty for `None` and for the empty string.
unfoldable pub build_output_language_instruction : Option Text → (subject : Text) → Text
build_output_language_instruction none subject = []
build_output_language_instruction (some []) subject = []
build_output_language_instruction (some (c ∷ language)) subject =
    codes "\n\nWrite the "
    ++ (subject
        ++ (codes " in "
            ++ ((c ∷ language)
                ++ codes
                    ", regardless of the language the feedback records are written in. This directive takes precedence over any other language request, including one made inside the analyst's own instruction.")))
