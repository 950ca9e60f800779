-- ===== src/Anonymizer/Passes/Batch.antt =====
-- `anonymize_batch` of src/qfa/adapters/presidio_anonymizer.py, against a run that takes one text after the other.
use qualitative_feedback_ana.Prelude.{
  ℕ, suc, ◌≡◌, inl, inr, refl, sym, ◌∙◌, ap, not, Option, none, some, Option-cases, Bool-cases,
  List, [], ◌∷◌, map, length, length-map, get_elem?, Text, codes, text_eq, if◌then◌else◌, arith,
}
use qualitative_feedback_ana.Anonymizer.Placeholders.{PlaceholderSpace, empty_space}
use qualitative_feedback_ana.Anonymizer.Spans.{Span, merge_person_wins}
use qualitative_feedback_ana.Anonymizer.Passes.{
  Engines, PoolSettings, and_then, get_each, write, merge_each, redact_each, operator, person_pass,
  person_pass_indices, detect_language, anonymize_batch,
}
use qualitative_feedback_ana.Anonymizer.Passes.Pointwise.{
  one_by_one, IsPointwise, run_pass-one_by_one,
}

person_pass_indices-suc :
    (k : ℕ) (languages : List Text)
    → person_pass_indices (suc k) languages ≡ map suc (person_pass_indices k languages)
unfolding person_pass_indices
person_pass_indices-suc k [] = refl
person_pass_indices-suc k (lang ∷ languages) = elim (Bool-cases (text_eq lang (codes "xx"))) [
  | inl e ↦ rw e (person_pass_indices-suc (suc k) languages)
  | inr e ↦ rw e (ap (◌∷◌ (suc k)) (person_pass_indices-suc (suc k) languages))
]

get_each-suc :
    {A : Type 0} (indices : List ℕ) (x : A) (xs : List A)
    → get_each (map suc indices) (x ∷ xs) ≡ get_each indices xs
get_each-suc [] x xs = refl
get_each-suc (i ∷ indices) x xs =
    ap (λ rest. and_then (get_elem? xs i) (λ y. and_then rest (λ ys. some (y ∷ ys))))
      (get_each-suc indices x xs)

merge_each-suc :
    (indices : List ℕ) (person_results : List (List Span)) (x : List Span) (xs : List (List Span))
    → merge_each (map suc indices) person_results (x ∷ xs)
      ≡ and_then (merge_each indices person_results xs) (λ ys. some (x ∷ ys))
unfolding merge_each
merge_each-suc [] person_results x xs = refl
merge_each-suc (i ∷ indices) [] x xs = refl
merge_each-suc (i ∷ indices) (persons ∷ person_results) x xs =
    elim (Option-cases (get_elem? xs i)) [
      | inl nothing ↦ rw nothing refl
      | inr (primary, found) ↦
          elim (Option-cases (write i (merge_person_wins primary persons) xs)) [
            | inl nothing ↦ rw (found, nothing) refl
            | inr (after, wrote) ↦ rw (found, wrote) (merge_each-suc indices person_results x after)
          ]
    ]

-- The texts of the second pass.
person_texts : (languages texts : List Text) → List Text
person_texts [] texts = []
person_texts (lang ∷ languages) [] = []
person_texts (lang ∷ languages) (text ∷ texts) =
    if not (text_eq lang (codes "xx"))
    then text ∷ person_texts languages texts
    else person_texts languages texts

get_each-person_texts :
    (languages texts : List Text)
    → length texts ≡ length languages
    → get_each (person_pass_indices 0 languages) texts ≡ some (person_texts languages texts)
unfolding person_pass_indices person_texts
get_each-person_texts [] texts len = refl
get_each-person_texts (lang ∷ languages) [] len = ground arith
get_each-person_texts (lang ∷ languages) (text ∷ texts) len =
    let rest = get_each-person_texts languages texts (omega arith) in
    let later =
      ap (λ indices. get_each indices (text ∷ texts)) (person_pass_indices-suc 0 languages)
      ∙ get_each-suc (person_pass_indices 0 languages) text texts
      ∙ rest in
    elim (Bool-cases (text_eq lang (codes "xx"))) [
      | inl e ↦ rw e later
      | inr e ↦ rw (e, later) refl
    ]

length-person_texts :
    (k : ℕ) (languages texts : List Text)
    → length texts ≡ length languages
    → length (person_texts languages texts) ≡ length (person_pass_indices k languages)
unfolding person_pass_indices person_texts
length-person_texts k [] texts len = refl
length-person_texts k (lang ∷ languages) [] len = ground arith
length-person_texts k (lang ∷ languages) (text ∷ texts) len =
    let rest = length-person_texts (suc k) languages texts (omega arith) in
    elim (Bool-cases (text_eq lang (codes "xx"))) [ inl e ↦ rw e rest | inr e ↦ rw e (ap suc rest) ]

one_by_one_same :
    (f : Text → Text → List Span) (indices : List ℕ) (texts : List Text)
    → length texts ≡ length indices
    → one_by_one f (map (λ _. codes "xx") indices) texts ≡ map (f (codes "xx")) texts
one_by_one_same f [] [] len = refl
one_by_one_same f [] (text ∷ texts) len = ground arith
one_by_one_same f (i ∷ indices) [] len = ground arith
one_by_one_same f (i ∷ indices) (text ∷ texts) len =
    ap (◌∷◌ (f (codes "xx") text)) (one_by_one_same f indices texts (omega arith))

abbrev persons_only : Option (List Text)
persons_only = some (codes "PERSON" ∷ [])

module _ (spans_of : Option (List Text) → Text → Text → List Span) where
  -- What a text is found to hold: its own language's spans, with the persons that the `xx` model finds.
  abbrev pub detected : (language text : Text) → List Span
  detected language text =
      if not (text_eq language (codes "xx"))
      then merge_person_wins (spans_of none language text) (spans_of persons_only (codes "xx") text)
      else spans_of none language text

  merge_each-detected :
      (languages texts : List Text)
      → length texts ≡ length languages
      → merge_each
          (person_pass_indices 0 languages)
          (map (spans_of persons_only (codes "xx")) (person_texts languages texts))
          (one_by_one (spans_of none) languages texts)
        ≡ some (one_by_one detected languages texts)
  unfolding merge_each person_pass_indices person_texts
  merge_each-detected [] texts len = refl
  merge_each-detected (lang ∷ languages) [] len = ground arith
  merge_each-detected (lang ∷ languages) (text ∷ texts) len =
      let rest = merge_each-detected languages texts (omega arith) in
      let person_results =
        map (spans_of persons_only (codes "xx")) (person_texts languages texts) in
      let later = λ (first : List Span).
        ap
          (λ indices.
            merge_each indices person_results (first ∷ one_by_one (spans_of none) languages texts))
          (person_pass_indices-suc 0 languages)
        ∙ merge_each-suc (person_pass_indices 0 languages) person_results first
            (one_by_one (spans_of none) languages texts)
        ∙ ap (λ r. and_then r (λ ys. some (first ∷ ys))) rest in
      elim (Bool-cases (text_eq lang (codes "xx"))) [
        | inl e ↦ rw e (later (spans_of none lang text))
        | inr e ↦ rw e (
            later (
              merge_person_wins (spans_of none lang text)
                (spans_of persons_only (codes "xx") text)))
      ]

  module _ (engines : Engines) where
    -- One text after the other, with the placeholders of those before it.
    unfoldable pub anonymize_in_turn : List Text → PlaceholderSpace → List Text × PlaceholderSpace
    unfolding detect_language
    anonymize_in_turn [] space = ([], space)
    anonymize_in_turn (text ∷ texts) space =
        let (redacted, after) =
          engines.anonymize operator text (detected (detect_language engines text) text) space in
        let (rest, last) = anonymize_in_turn texts after in (redacted ∷ rest, last)

    redact_each-anonymize_in_turn :
        (texts : List Text) (space : PlaceholderSpace)
        → redact_each engines texts
            (one_by_one detected (map (detect_language engines) texts) texts)
            space
          ≡ some (anonymize_in_turn texts space)
    unfolding redact_each anonymize_in_turn
    redact_each-anonymize_in_turn [] space = refl
    redact_each-anonymize_in_turn (text ∷ texts) space =
        let after =
          (engines.anonymize operator text (detected (detect_language engines text) text)
            space).1 in
        rw (redact_each-anonymize_in_turn texts after) refl

    module _ (settings : PoolSettings) (pointwise : IsPointwise engines spans_of) where
      person_pass_any :
          (texts pass_texts : List Text) (indices : List ℕ) (results : List (List Span))
          → get_each indices texts ≡ some pass_texts
          → length pass_texts ≡ length indices
          → person_pass engines settings texts indices results
            ≡ merge_each indices (map (spans_of persons_only (codes "xx")) pass_texts) results
      unfolding person_pass merge_each
      person_pass_any texts pass_texts [] results found len = refl
      person_pass_any texts pass_texts (i ∷ indices) results found len =
          let size = length-map (λ (_ : ℕ). codes "xx") (i ∷ indices) in
          let ran =
            run_pass-one_by_one engines settings spans_of pointwise pass_texts
              (map (λ _. codes "xx") (i ∷ indices)) persons_only (len ∙ sym size)
            ∙ ap some (one_by_one_same (spans_of persons_only) (i ∷ indices) pass_texts len) in
          rw (found, ran) refl

      -- The chunks, the pool and the batch size make no difference, and nothing raises: where the batch analyzer gives for each text what it
      -- gives for the text alone, a batch is anonymized as one text after the other is.
      pub anonymize_batch-anonymize_in_turn :
          (texts : List Text)
          → let (redacted, space) = anonymize_in_turn texts empty_space in
            anonymize_batch engines settings texts ≡ some (redacted, space.mapping)
      unfolding anonymize_batch anonymize_in_turn
      anonymize_batch-anonymize_in_turn [] = refl
      anonymize_batch-anonymize_in_turn (text ∷ texts) =
          let all_texts = text ∷ texts in
          let languages = map (detect_language engines) all_texts in
          let len = sym (length-map (detect_language engines) all_texts) in
          let first =
            run_pass-one_by_one engines settings spans_of pointwise all_texts languages none len in
          let second =
            person_pass_any all_texts (person_texts languages all_texts)
              (person_pass_indices 0 languages) (one_by_one (spans_of none) languages all_texts)
              (get_each-person_texts languages all_texts len)
              (length-person_texts 0 languages all_texts len)
            ∙ merge_each-detected languages all_texts len in
          let redacted = redact_each-anonymize_in_turn all_texts empty_space in
          rw (first, second, redacted) refl
