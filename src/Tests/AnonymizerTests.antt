-- ===== src/Tests/AnonymizerTests.antt =====
-- Instances of the theorems on the placeholder space of src/qfa/adapters/presidio_anonymizer.py.
use qualitative_feedback_ana.Prelude.{
  ℕ, ◌≡◌, ◌≢◌, refl, true, some, List, [], ◌∷◌, Text, codes, Among, All,
}
use qualitative_feedback_ana.Prelude.Decimal.{decimal}
use qualitative_feedback_ana.Anonymizer.Spans.{Span, merge_person_wins, is_person}
use qualitative_feedback_ana.Anonymizer.Spans.Merging.{IsCovered, KeepsClear, merge_person_wins_lem}
use qualitative_feedback_ana.Anonymizer.Placeholders.{
  Entry, PlaceholderSpace, empty_space, lookup, numbered, placeholder_for,
}
use qualitative_feedback_ana.Anonymizer.Placeholders.Restoring.{
  IsRestorable, at_first, afterwards, placeholder_for-lookup,
}

abbrev after_ana : PlaceholderSpace
after_ana = (placeholder_for (codes "Ana") (codes "PERSON") empty_space).1

second_number :
    (placeholder_for (codes "Goma") (codes "LOCATION") after_ana).0 ≡ codes "<LOCATION_1>"
unfolding placeholder_for numbered decimal
second_number = refl

not_pii : codes "Goma" ≢ codes "PII"
not_pii e = cc

placeholder_for-lookup_example :
    (lookup
        (placeholder_for (codes "Goma") (codes "LOCATION") after_ana).0
        (placeholder_for (codes "Goma") (codes "LOCATION") after_ana).1.mapping
      ≡ some (codes "Goma"))
    × IsRestorable (placeholder_for (codes "Goma") (codes "LOCATION") after_ana).1
    × ((e : Entry)
        → Among e after_ana.by_value
        → Among e (placeholder_for (codes "Goma") (codes "LOCATION") after_ana).1.by_value)
placeholder_for-lookup_example =
    placeholder_for-lookup (codes "Goma") (codes "LOCATION") after_ana
      (afterwards (codes "Ana") (codes "PERSON") empty_space at_first) not_pii

abbrev span_of : ℕ → ℕ → Text → Span
span_of start stop entity_type = record { start = start; stop = stop; entity_type = entity_type }

-- The second pass finds a person where the first found a place, and one that the first has found.
abbrev first_pass : List Span
first_pass =
    span_of 0 4 (codes "LOCATION")
    ∷ span_of 10 14 (codes "PERSON")
    ∷ span_of 20 25 (codes "LOCATION")
    ∷ []

abbrev second_pass : List Span
second_pass = span_of 0 8 (codes "PERSON") ∷ span_of 10 14 (codes "PERSON") ∷ []

merged_spans :
    merge_person_wins first_pass second_pass
    ≡ span_of 10 14 (codes "PERSON")
      ∷ span_of 0 8 (codes "PERSON")
      ∷ span_of 20 25 (codes "LOCATION")
      ∷ []
unfolding merge_person_wins
merged_spans = refl

merge_person_wins_lem_example :
    let merged = merge_person_wins first_pass second_pass in
    All (λ p. is_person p ≡ true → Among p merged) first_pass
    × All (IsCovered merged) first_pass
    × All (IsCovered merged) second_pass
    × All (λ span. All (KeepsClear span) merged) merged
merge_person_wins_lem_example = merge_person_wins_lem first_pass second_pass (refl, (refl, tt))
