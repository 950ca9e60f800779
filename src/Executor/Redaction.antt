-- ===== src/Executor/Redaction.antt =====
-- `anonymize_records_and_prompt` of src/qfa/services/llm_call_executor.py. `anonymize_batch` of the anonymization port is an
-- argument: the redacted texts, and the mapping from placeholders to what they stand for.
use qualitative_feedback_ana.Prelude.{
  suc, ◌≡◌, refl, ap, ap₂, ◌∙◌, Bool, true, false, List, [], ◌∷◌, map, Text, length, length-map,
  arith,
}
use qualitative_feedback_ana.Domain.Errors.{Result, ok, err, value_error, index_error, ◌>>=◌}
use qualitative_feedback_ana.Domain.Records.{
  AnalysisRecord, feedback, meeting, record_text, with_record_text,
}

abbrev pub Mapping : Type 0
Mapping = List (Text × Text)

-- `zip(records, redacted_contents, strict=True)`
replace_texts : List AnalysisRecord → List Text → Result (List AnalysisRecord)
replace_texts [] [] = ok []
replace_texts (r ∷ records) (content ∷ contents) =
    replace_texts records contents >>= λ rest. ok (with_record_text r content ∷ rest)
replace_texts _ _ = err value_error

-- `redacted[0]` and `redacted[1:]`
split_redacted :
    List AnalysisRecord → List Text → Mapping → Result (List AnalysisRecord × Text × Mapping)
unfolding replace_texts
split_redacted records [] mapping = err index_error
split_redacted records (prompt ∷ contents) mapping =
    replace_texts records contents >>= λ new_records. ok (new_records, prompt, mapping)

module _ (anonymize_batch : List Text → List Text × Mapping) where
  unfoldable pub anonymize_records_and_prompt :
      (records : List AnalysisRecord) (analyst_prompt : Text) (anonymize : Bool)
      → Result (List AnalysisRecord × Text × Mapping)
  unfolding split_redacted
  anonymize_records_and_prompt records analyst_prompt false = ok (records, analyst_prompt, [])
  anonymize_records_and_prompt records analyst_prompt true =
      let (redacted, mapping) = anonymize_batch (analyst_prompt ∷ map record_text records) in
      split_redacted records redacted mapping

-- A record without its text.
abbrev pub untexted : AnalysisRecord → AnalysisRecord
untexted r = with_record_text r []

untexted-with_record_text :
    (r : AnalysisRecord) (t : Text) → untexted (with_record_text r t) ≡ untexted r
untexted-with_record_text (feedback r) t = refl
untexted-with_record_text (meeting r) t = refl

record_text-with_record_text :
    (r : AnalysisRecord) (t : Text) → record_text (with_record_text r t) ≡ t
record_text-with_record_text (feedback r) t = refl
record_text-with_record_text (meeting r) t = refl

-- New records with these texts that are otherwise the given ones.
abbrev pub OnlyTextsChange : List AnalysisRecord → List Text → List AnalysisRecord → Type 0
OnlyTextsChange records contents new_records =
    (map untexted new_records ≡ map untexted records) × (map record_text new_records ≡ contents)

replace_texts-OnlyTextsChange :
    (records : List AnalysisRecord) (contents : List Text)
    → length contents ≡ length records
    → (new_records : List AnalysisRecord) × (replace_texts records contents ≡ ok new_records)
      × OnlyTextsChange records contents new_records
unfolding replace_texts
replace_texts-OnlyTextsChange [] [] h = ([], refl, (refl, refl))
replace_texts-OnlyTextsChange [] (c ∷ cs) h = absurd (omega arith)
replace_texts-OnlyTextsChange (r ∷ rs) [] h = absurd (omega arith)
replace_texts-OnlyTextsChange (r ∷ rs) (c ∷ cs) h =
    let (rest, made, (same, texts)) = replace_texts-OnlyTextsChange rs cs (omega arith) in
    (
      with_record_text r c ∷ rest,
      rw made refl,
      (
        ap₂ ◌∷◌ (untexted-with_record_text r c) same,
        ap₂ ◌∷◌ (record_text-with_record_text r c) texts,
      ),
    )

split_redacted-OnlyTextsChange :
    (records : List AnalysisRecord) (redacted : List Text) (mapping : Mapping)
    → length redacted ≡ suc (length records)
    → (new_records : List AnalysisRecord) × (prompt : Text) × (split_redacted records redacted
          mapping
        ≡ ok (new_records, prompt, mapping))
      × (map untexted new_records ≡ map untexted records)
      × (prompt ∷ map record_text new_records ≡ redacted)
unfolding split_redacted
split_redacted-OnlyTextsChange records [] mapping h = absurd (omega arith)
split_redacted-OnlyTextsChange records (prompt ∷ contents) mapping h =
    let (new_records, made, (same, texts)) =
      replace_texts-OnlyTextsChange records contents (omega arith) in
    (new_records, prompt, rw made refl, same, ap (◌∷◌ prompt) texts)

-- With an anonymizer that returns as many texts as it is given, redaction succeeds: the prompt and the texts of the records are
-- the redacted ones, in their order, and nothing else of a record changes.
pub anonymize_records_and_prompt-OnlyTextsChange :
    (anonymize_batch : List Text → List Text × Mapping)
    → ((texts : List Text) → length (anonymize_batch texts).0 ≡ length texts)
    → (records : List AnalysisRecord) (analyst_prompt : Text)
    → (new_records : List AnalysisRecord) × (prompt : Text) × (anonymize_records_and_prompt
          anonymize_batch records analyst_prompt true
        ≡ ok (new_records, prompt, (anonymize_batch (analyst_prompt ∷ map record_text records)).1))
      × (map untexted new_records ≡ map untexted records)
      × (prompt ∷ map record_text new_records
          ≡ (anonymize_batch (analyst_prompt ∷ map record_text records)).0)
unfolding anonymize_records_and_prompt
anonymize_records_and_prompt-OnlyTextsChange anonymize_batch same_length records analyst_prompt =
    let (redacted, mapping) = anonymize_batch (analyst_prompt ∷ map record_text records) in
    split_redacted-OnlyTextsChange records redacted mapping (
      same_length (analyst_prompt ∷ map record_text records)
      ∙ ap suc (length-map record_text records))
