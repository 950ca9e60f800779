-- ===== src/Tests/ExecutorTests.antt =====
-- Instances of the theorems on src/qfa/services/llm_call_executor.py. The anonymizer here writes a letter before each text.
use qualitative_feedback_ana.Prelude.{
  ◌≡◌, true, List, [], ◌∷◌, map, Text, codes, length, length-map,
}
use qualitative_feedback_ana.Domain.Errors.{ok}
use qualitative_feedback_ana.Domain.Records.{AnalysisRecord, record_text}
use qualitative_feedback_ana.Executor.Redaction.{
  Mapping, anonymize_records_and_prompt, untexted, anonymize_records_and_prompt-OnlyTextsChange,
}
use qualitative_feedback_ana.Tests.Data.{three}

abbrev mark_all : List Text → List Text × Mapping
mark_all texts = (map (λ t. b'#' ∷ t) texts, (codes "<PERSON_0>", codes "Ana") ∷ [])

length-mark_all : (texts : List Text) → length (mark_all texts).0 ≡ length texts
length-mark_all texts = length-map (λ t. b'#' ∷ t) texts

anonymize_records_and_prompt-OnlyTextsChange_example :
    (new_records : List AnalysisRecord) × (prompt : Text) × (anonymize_records_and_prompt mark_all
        three
        (codes "why")
        true
      ≡ ok (new_records, prompt, (mark_all (codes "why" ∷ map record_text three)).1))
    × (map untexted new_records ≡ map untexted three)
    × (prompt ∷ map record_text new_records ≡ (mark_all (codes "why" ∷ map record_text three)).0)
anonymize_records_and_prompt-OnlyTextsChange_example =
    anonymize_records_and_prompt-OnlyTextsChange mark_all length-mark_all three (codes "why")
