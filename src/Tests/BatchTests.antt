-- ===== src/Tests/BatchTests.antt =====
-- Instances of the theorem on `anonymize_batch` of src/qfa/adapters/presidio_anonymizer.py, with engines that are written out.
use qualitative_feedback_ana.Prelude.{
  ◌≡◌, refl, Option, none, some, List, [], ◌∷◌, map, length, Text, codes, text_eq, if◌then◌else◌,
}
use qualitative_feedback_ana.Prelude.Decimal.{decimal}
use qualitative_feedback_ana.Anonymizer.Spans.{Span, merge_person_wins}
use qualitative_feedback_ana.Anonymizer.Placeholders.{
  PlaceholderSpace, empty_space, numbered, placeholder_for,
}
use qualitative_feedback_ana.Anonymizer.Chunking.{plan_chunks}
use qualitative_feedback_ana.Anonymizer.Passes.{Engines, PoolSettings, anonymize_batch}
use qualitative_feedback_ana.Anonymizer.Passes.Batch.{
  anonymize_in_turn, anonymize_batch-anonymize_in_turn,
}

-- Three workers have five texts of two languages.
planned :
    plan_chunks (codes "en" ∷ codes "fr" ∷ codes "en" ∷ codes "en" ∷ codes "fr" ∷ []) 3
    ≡ (codes "en", 0 ∷ 2 ∷ []) ∷ (codes "en", 3 ∷ []) ∷ (codes "fr", 1 ∷ 4 ∷ []) ∷ []
unfolding plan_chunks
planned = refl

-- The person model finds every text a person, and the others find a place.
abbrev whole_text : Option (List Text) → Text → Text → List Span
whole_text none language text =
    record { start = 0; stop = length text; entity_type = codes "LOCATION" } ∷ []
whole_text (some entities) language text =
    if text_eq text (codes "Ana")
    then record { start = 0; stop = 3; entity_type = codes "PERSON" } ∷ []
    else []

abbrev redact_whole :
    ((entity_type value : Text) → PlaceholderSpace → Text × PlaceholderSpace)
    → Text
    → List Span
    → PlaceholderSpace
    → Text × PlaceholderSpace
redact_whole operator text [] space = (text, space)
redact_whole operator text (span ∷ spans) space = operator span.entity_type text space

abbrev engines : Engines
engines = record {
  detect = λ text. if text_eq text (codes "Goma") then none else some (codes "en");
  analyze_iterator = λ entities language _ texts. map (whole_text entities language) texts;
  anonymize = redact_whole;
}

abbrev pool : PoolSettings
pool = record { max_workers = 2; batch_size = 8 }

abbrev texts : List Text
texts = codes "Ana" ∷ codes "Goma" ∷ codes "Ana" ∷ codes "Bukavu" ∷ []

batch :
    (anonymize_in_turn whole_text engines texts empty_space).0
    ≡ codes "<PERSON_0>" ∷ codes "<LOCATION_1>" ∷ codes "<PERSON_0>" ∷ codes "<LOCATION_2>" ∷ []
unfolding anonymize_in_turn merge_person_wins placeholder_for numbered decimal
batch = refl

anonymize_batch-anonymize_in_turn_example :
    let (redacted, space) = anonymize_in_turn whole_text engines texts empty_space in
    anonymize_batch engines pool texts ≡ some (redacted, space.mapping)
anonymize_batch-anonymize_in_turn_example =
    anonymize_batch-anonymize_in_turn whole_text engines pool (λ entities language _ ts. refl) texts
