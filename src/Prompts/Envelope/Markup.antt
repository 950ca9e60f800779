-- ===== src/Prompts/Envelope/Markup.antt =====
-- Untrusted text adds no tag to the messages of src/qfa/services/prompts.py.
use qualitative_feedback_ana.Prelude.{
  ℕ, ◌+◌, ◌≡◌, refl, ap₂, ◌∙◌, true, List, [], ◌∷◌, ◌++◌, map, Text, codes, join, arith, All, count,
  count-append,
}
use qualitative_feedback_ana.Domain.Records.{AnalysisRecord, feedback, meeting}
use qualitative_feedback_ana.Prompts.Escape.{
  escape_for_tag_envelope, xml_quoteattr, count-escape, count-xml_quoteattr,
}
use qualitative_feedback_ana.Prompts.Envelope.{
  metadata_items, meeting_items, metadata_line, metadata_lines, metadata_block, record_envelope,
  build_feedback_record_envelope, build_community_meeting_record_envelope, record_block,
  build_feedback_records_envelope, build_analyze_user_message,
}

-- How often `<` stands in a text.
abbrev pub opens : Text → ℕ
opens = count b'<'

opens-append : (s t : Text) → opens (s ++ t) ≡ opens s + opens t
opens-append = count-append b'<'

opens-escape : (s : Text) → opens (escape_for_tag_envelope s) ≡ 0
opens-escape s = count-escape b'<' s refl

opens-quoteattr : (s : Text) → opens (xml_quoteattr s) ≡ 0
opens-quoteattr s = count-xml_quoteattr b'<' s refl

opens-metadata_line : (e : Text × Text) → opens (metadata_line e) ≡ 0
unfolding metadata_line
opens-metadata_line e = simp (opens-append, opens-escape) (omega arith)

opens-join : (xs : List Text) → All (λ x. opens x ≡ 0) xs → opens (join (codes "\n") xs) ≡ 0
opens-join [] h = refl
opens-join (x ∷ []) h = h.0
opens-join (x ∷ y ∷ xs) h =
    opens-append (x ++ codes "\n") (join (codes "\n") (y ∷ xs))
    ∙ ap₂ ◌+◌ (opens-append x (codes "\n") ∙ ap₂ ◌+◌ h.0 refl) (opens-join (y ∷ xs) h.1)

each_line_free : (items : List (Text × Text)) → All (λ x. opens x ≡ 0) (map metadata_line items)
each_line_free [] = tt
each_line_free (e ∷ items) = (opens-metadata_line e, each_line_free items)

opens-metadata_lines : (items : List (Text × Text)) → opens (metadata_lines items) ≡ 0
opens-metadata_lines items =
    unfold metadata_lines in opens-join (map metadata_line items) (each_line_free items)

-- The tags of a metadata block.
abbrev pub metadata_tags : List (Text × Text) → ℕ
metadata_tags [] = 0
metadata_tags (e ∷ items) = 2

opens-metadata_block_cons :
    (c : ℕ) (s : Text) → opens (c ∷ s) ≡ 0 → opens (metadata_block (c ∷ s)) ≡ 2
opens-metadata_block_cons c s h =
    unfold metadata_block in
    omega (
      arith,
      h,
      opens-append (codes "    <metadata>\n") ((c ∷ s) ++ codes "\n    </metadata>\n"),
      opens-append (c ∷ s) (codes "\n    </metadata>\n"),
    )

opens-metadata_block_lines :
    (items : List (Text × Text))
    → opens (metadata_block (metadata_lines items)) ≡ metadata_tags items
opens-metadata_block_lines [] = unfold metadata_block metadata_lines in refl
opens-metadata_block_lines (e ∷ []) =
    unfold metadata_lines metadata_line in
    opens-metadata_block_cons _ _ (opens-metadata_lines (e ∷ []))
opens-metadata_block_lines (e ∷ f ∷ items) =
    unfold metadata_lines metadata_line in
    opens-metadata_block_cons _ _ (opens-metadata_lines (e ∷ f ∷ items))

opens-record_envelope :
    (tag id text : Text) (items : List (Text × Text))
    → opens tag ≡ 0
    → opens (record_envelope tag id text items true true) ≡ 4 + metadata_tags items
unfolding record_envelope
opens-record_envelope tag id text items h =
    simp (opens-append, opens-escape, opens-metadata_block_lines, opens-quoteattr, h) (omega arith)

-- The tags of one record: four for the record and its text, and those of its metadata.
abbrev pub record_tags : AnalysisRecord → ℕ
record_tags (feedback r) = 4 + metadata_tags (metadata_items r.metadata)
record_tags (meeting r) = 4 + metadata_tags (meeting_items r.metadata)

abbrev pub sum_of : List ℕ → ℕ
sum_of [] = 0
sum_of (n ∷ ns) = n + sum_of ns

opens-record_block : (r : AnalysisRecord) → opens (record_block true true r) ≡ record_tags r
unfolding record_block
opens-record_block (feedback r) =
    unfold build_feedback_record_envelope in
    opens-record_envelope (codes "feedback_record") r.id r.content (metadata_items r.metadata) refl
opens-record_block (meeting r) =
    unfold build_community_meeting_record_envelope in
    opens-record_envelope (codes "community_meeting_record") r.id r.meeting_notes
      (meeting_items r.metadata) refl

opens-join_records :
    (rs : List AnalysisRecord)
    → opens (join (codes "\n") (map (record_block true true) rs)) ≡ sum_of (map record_tags rs)
opens-join_records [] = refl
opens-join_records (r ∷ []) = omega (arith, opens-record_block r)
opens-join_records (r ∷ q ∷ rs) =
    opens-append (record_block true true r ++ codes "\n")
      (join (codes "\n") (map (record_block true true) (q ∷ rs)))
    ∙ ap₂ ◌+◌
        (opens-append (record_block true true r) (codes "\n") ∙ omega (arith, opens-record_block r))
        (opens-join_records (q ∷ rs))

-- The number of `<` in the analyze message is that of its tags, whatever stands in the prompt and in the records:
-- two for the instruction, two around the records, four for each record and two more for one that has metadata.
pub opens-build_analyze_user_message :
    (prompt : Text) (rs : List AnalysisRecord)
    → opens (build_analyze_user_message prompt rs) ≡ 4 + sum_of (map record_tags rs)
opens-build_analyze_user_message prompt rs =
    unfold build_analyze_user_message build_feedback_records_envelope in
    simp (opens-append, opens-escape, opens-join_records) (omega arith)
