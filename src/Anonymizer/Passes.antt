-- ===== src/Anonymizer/Passes.antt =====
-- `_run_pass`, `_scatter` and `anonymize_batch` of src/qfa/adapters/presidio_anonymizer.py. Presidio's engines and langdetect are parameters.
pub mod Pointwise
pub mod Batch
use qualitative_feedback_ana.Prelude.{
  ℕ, zero, suc, Option, none, some, List, [], ◌∷◌, map, length, replicate, get_elem?, Text, codes,
  text_eq, if◌then◌else◌, not, any,
}
use qualitative_feedback_ana.Anonymizer.Placeholders.{
  PlaceholderSpace, empty_space, placeholder_for,
}
use qualitative_feedback_ana.Anonymizer.Spans.{Span, merge_person_wins}
use qualitative_feedback_ana.Anonymizer.Chunking.{plan_chunks}

-- A step that can raise, and the step after it.
abbrev pub and_then : {A B : Type 0} → Option A → (A → Option B) → Option B
and_then none f = none
and_then (some a) f = f a

-- `[texts[i] for i in indices]`
abbrev pub get_each : {A : Type 0} → List ℕ → List A → Option (List A)
get_each [] xs = some []
get_each (i ∷ indices) xs =
    and_then (get_elem? xs i) (λ x. and_then (get_each indices xs) (λ rest. some (x ∷ rest)))

-- `results_by_index[index] = result`; an index out of range raises.
abbrev pub write : {A : Type 0} → ℕ → A → List A → Option (List A)
write i a [] = none
write zero a (x ∷ xs) = some (a ∷ xs)
write (suc i) a (x ∷ xs) = and_then (write i a xs) (λ rest. some (x ∷ rest))

-- `zip(..., strict=True)` raises on lists of different lengths.
unfoldable pub scatter :
    {A : Type 0} → (indices : List ℕ) (results : List A) → List A → Option (List A)
scatter [] [] results_by_index = some results_by_index
scatter [] (result ∷ results) results_by_index = none
scatter (index ∷ indices) [] results_by_index = none
scatter (index ∷ indices) (result ∷ results) results_by_index =
    and_then (write index result results_by_index) (scatter indices results)

-- The settings of the adapter, and what it calls: `langdetect.detect`, where none stands for its exception; the batch analyzer's
-- `analyze_iterator`; and the anonymizer engine, which calls the operator of an entity type with a value and threads the space.
pub record Engines : Type 0 where
  pub detect : Text → Option Text
  pub analyze_iterator :
      (entities : Option (List Text)) (language : Text) (batch_size : ℕ)
      → List Text
      → List (List Span)
  pub anonymize :
      (operator : (entity_type value : Text) → PlaceholderSpace → Text × PlaceholderSpace)
      → Text
      → List Span
      → PlaceholderSpace
      → Text × PlaceholderSpace

pub record PoolSettings : Type 0 where
  pub max_workers : ℕ
  pub batch_size : ℕ

module _ (engines : Engines) (settings : PoolSettings) where
  unfoldable pub analyze_chunk :
      (texts : List Text) (entities : Option (List Text))
      → Text × List ℕ
      → Option (List (List Span))
  analyze_chunk texts entities (language, indices) =
      and_then (get_each indices texts) (λ chunk_texts.
        some (engines.analyze_iterator entities language settings.batch_size chunk_texts))

  -- One chunk runs inline and more run on the pool; either way the results are scattered in the order of the chunks.
  unfoldable pub scatter_chunks :
      (texts : List Text) (entities : Option (List Text)) (chunks : List (Text × List ℕ))
      → List (List Span)
      → Option (List (List Span))
  unfolding analyze_chunk scatter
  scatter_chunks texts entities [] results_by_index = some results_by_index
  scatter_chunks texts entities (chunk ∷ chunks) results_by_index =
      and_then (analyze_chunk texts entities chunk) (λ results.
        and_then (scatter chunk.1 results results_by_index) (scatter_chunks texts entities chunks))

  unfoldable pub run_pass :
      (texts languages : List Text) (entities : Option (List Text)) → Option (List (List Span))
  unfolding scatter_chunks plan_chunks
  run_pass texts languages entities =
      scatter_chunks texts entities (plan_chunks languages settings.max_workers)
        (replicate (length texts) [])

abbrev pub model_languages : List Text
model_languages = codes "en" ∷ codes "fr" ∷ codes "uk" ∷ codes "ru" ∷ codes "es" ∷ codes "xx" ∷ []

unfoldable pub detect_language : Engines → Text → Text
detect_language engines text = elim (engines.detect text) [
  | none ↦ codes "xx"
  | some code ↦ if any (text_eq code) model_languages then code else codes "xx"
]

-- The places, from `index` on, of the texts that have a model of their language.
unfoldable pub person_pass_indices : (index : ℕ) (languages : List Text) → List ℕ
person_pass_indices index [] = []
person_pass_indices index (lang ∷ languages) =
    if not (text_eq lang (codes "xx"))
    then index ∷ person_pass_indices (suc index) languages
    else person_pass_indices (suc index) languages

-- The loop over `enumerate(person_pass_indices)`.
unfoldable pub merge_each :
    (indices : List ℕ) (person_results : List (List Span))
    → List (List Span)
    → Option (List (List Span))
unfolding merge_person_wins
merge_each [] person_results results_by_index = some results_by_index
merge_each (i ∷ indices) [] results_by_index = none
merge_each (i ∷ indices) (persons ∷ person_results) results_by_index =
    and_then (get_elem? results_by_index i) (λ primary.
      and_then (write i (merge_person_wins primary persons) results_by_index)
        (merge_each indices person_results))

-- `DATE_TIME` keeps its value, every other entity type has a placeholder for it.
abbrev pub operator : (entity_type value : Text) → PlaceholderSpace → Text × PlaceholderSpace
unfolding placeholder_for
operator entity_type value space =
    if text_eq entity_type (codes "DATE_TIME")
    then (value, space)
    else placeholder_for value entity_type space

-- `_redact`, over the texts in their order.
unfoldable pub redact_each :
    Engines
    → List Text
    → List (List Span)
    → PlaceholderSpace
    → Option (List Text × PlaceholderSpace)
redact_each engines [] [] space = some ([], space)
redact_each engines [] (spans ∷ results) space = none
redact_each engines (text ∷ texts) [] space = none
redact_each engines (text ∷ texts) (spans ∷ results) space =
    let (redacted, after) = engines.anonymize operator text spans space in
    and_then (redact_each engines texts results after)
      (λ (rest, last). some (redacted ∷ rest, last))

unfoldable pub person_pass :
    Engines
    → PoolSettings
    → (texts : List Text) (indices : List ℕ) → List (List Span)
    → Option (List (List Span))
unfolding run_pass merge_each
person_pass engines settings texts [] results_by_index = some results_by_index
person_pass engines settings texts (i ∷ indices) results_by_index =
    and_then (get_each (i ∷ indices) texts) (λ person_pass_texts.
      and_then
        (run_pass engines settings person_pass_texts (map (λ _. codes "xx") (i ∷ indices))
          (some (codes "PERSON" ∷ [])))
        (λ person_results. merge_each (i ∷ indices) person_results results_by_index))

unfoldable pub anonymize_batch :
    Engines → PoolSettings → List Text → Option (List Text × List (Text × Text))
unfolding run_pass person_pass redact_each detect_language person_pass_indices
anonymize_batch engines settings [] = some ([], [])
anonymize_batch engines settings (text ∷ texts) =
    let languages = map (detect_language engines) (text ∷ texts) in
    and_then (run_pass engines settings (text ∷ texts) languages none) (λ first_results.
      and_then
        (person_pass engines settings (text ∷ texts) (person_pass_indices 0 languages)
          first_results)
        (λ results.
          and_then (redact_each engines (text ∷ texts) results empty_space)
            (λ (redacted, space). some (redacted, space.mapping))))
