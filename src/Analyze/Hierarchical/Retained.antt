-- ===== src/Analyze/Hierarchical/Retained.antt =====
-- Which placeholders of src/qfa/adapters/presidio_anonymizer.py `analyze_hierarchical` of src/qfa/services/analyze.py gives back.
use qualitative_feedback_ana.Prelude.{
  ℕ, ◌≡◌, ◌≢◌, ◌⊎◌, refl, sym, ap, subst, ◌∙◌, Bool, true, false, not, none, [], ◌∷◌, Text, codes,
  keep, text_eq, text_eq-eq, Bool-cases, if_same, inl, inr, if◌then◌else◌,
}
use qualitative_feedback_ana.Executor.Redaction.{Mapping}
use qualitative_feedback_ana.Anonymizer.Placeholders.{
  PlaceholderSpace, lookup, numbered, placeholder_for,
}
use qualitative_feedback_ana.Anonymizer.Placeholders.Restoring.{Reachable}
use qualitative_feedback_ana.Anonymizer.Placeholders.Numbering.{placeholder_for-numbered}
use qualitative_feedback_ana.Analyze.Hierarchical.{is_retained_placeholder, restorable}

lookup-keep :
    (retained : Text → Bool) (p : Text) (mapping : Mapping)
    → lookup p (keep (λ entry. not (retained entry.0)) mapping)
      ≡ (if retained p then none else lookup p mapping)
unfolding lookup
lookup-keep retained p [] = sym (if_same (retained p) none)
lookup-keep retained p ((k, v) ∷ mapping) = elim (Bool-cases (retained k)) [
  | inl left_out ↦ elim (Bool-cases (text_eq k p)) [
    | inl this ↦
        let retained_p = subst (λ z. retained z ≡ true) (text_eq-eq k p this) left_out in
        rw left_out (lookup-keep retained p mapping ∙ rw retained_p refl)
    | inr other ↦ rw (left_out, other) (lookup-keep retained p mapping)
  ]
  | inr kept ↦ elim (Bool-cases (text_eq k p)) [
    | inl this ↦
        let kept_p = subst (λ z. retained z ≡ false) (text_eq-eq k p this) kept in
        rw (kept, kept_p, this) refl
    | inr other ↦ rw (kept, other) (lookup-keep retained p mapping)
  ]
]

lookup-restorable :
    (p : Text) (mapping : Mapping)
    → lookup p (restorable mapping) ≡ (if is_retained_placeholder p then none else lookup p mapping)
unfolding restorable
lookup-restorable p mapping = lookup-keep is_retained_placeholder p mapping

numbered_retained :
    (entity_type : Text) (i : ℕ)
    → (entity_type ≡ codes "PERSON") ⊎ (entity_type ≡ codes "NRP")
    → is_retained_placeholder (numbered entity_type i) ≡ true
unfolding is_retained_placeholder numbered
numbered_retained entity_type i (inl e) = rw e refl
numbered_retained entity_type i (inr e) = rw e refl

-- After any requests, the placeholder of a value of the types PERSON and NRP has no entry among those that are given back, and every
-- placeholder that is not of that form has the entry that it had.
pub restorable-placeholder_for :
    (value entity_type : Text) (space : PlaceholderSpace)
    → Reachable space
    → value ≢ codes "PII"
    → (entity_type ≡ codes "PERSON") ⊎ (entity_type ≡ codes "NRP")
    → let (placeholder, after) = placeholder_for value entity_type space in
      (lookup placeholder (restorable after.mapping) ≡ none)
      × ((p : Text)
          → is_retained_placeholder p ≡ false
          → lookup p (restorable after.mapping) ≡ lookup p after.mapping)
restorable-placeholder_for value entity_type space r not_pii type =
    let (i, form) = placeholder_for-numbered value entity_type space r not_pii in
    let after = (placeholder_for value entity_type space).1.mapping in
    let retained = ap is_retained_placeholder form ∙ numbered_retained entity_type i type in
    (
      lookup-restorable _ _
          ∙ ap (λ t. if t then none else lookup (placeholder_for value entity_type space).0 after)
              retained,
      λ p other. lookup-restorable p after ∙ ap (λ t. if t then none else lookup p after) other,
    )
