-- ===== src/Anonymizer/Spans.antt =====
-- `_merge_person_wins` of src/qfa/adapters/presidio_anonymizer.py: the spans of two passes over a text, in favour of persons.
pub mod Merging
use qualitative_feedback_ana.Prelude.{
  ℕ, ◌≡◌, ◌⊎◌, ◌<◌, ◌≤◌, refl, sym, ◌∙◌, subst, Bool, true, false, not, ◌&&◌, List, [], ◌∷◌, ◌++◌,
  Text, codes, text_eq, ltb, any, keep, All, All-map, All-append, All-intro, All-keep_test,
  All-any-false, All-Among, Among, Among-append_left, Among-append_right, Among-keep, if◌then◌else◌,
  Bool-cases, inl, inr, arith,
}

-- `RecognizerResult`, without its score: from `start` up to `stop`, which is its `end`.
pub record Span : Type 0 where
  pub start : ℕ
  pub stop : ℕ
  pub entity_type : Text

unfoldable pub overlaps : (candidate span : Span) → Bool
overlaps candidate span = ltb candidate.start span.stop && ltb span.start candidate.stop

unfoldable pub overlaps_any : (candidate : Span) (spans : List Span) → Bool
unfolding overlaps
overlaps_any candidate spans = any (overlaps candidate) spans

abbrev pub is_person : Span → Bool
is_person span = text_eq span.entity_type (codes "PERSON")

-- The loop: a candidate that overlaps no person so far is one more.
unfoldable pub add_persons : (persons person_pass : List Span) → List Span
unfolding overlaps_any
add_persons persons [] = persons
add_persons persons (candidate ∷ person_pass) =
    if not (overlaps_any candidate persons)
    then add_persons (persons ++ candidate ∷ []) person_pass
    else add_persons persons person_pass

abbrev pub survives : (persons : List Span) → Span → Bool
unfolding overlaps_any
survives persons span = not (is_person span) && not (overlaps_any span persons)

unfoldable pub merge_person_wins : (primary person_pass : List Span) → List Span
unfolding add_persons overlaps_any
merge_person_wins primary person_pass =
    let persons = add_persons (keep is_person primary) person_pass in
    persons ++ keep (survives persons) primary
