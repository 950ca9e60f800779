-- ===== src/Anonymizer/Placeholders/Numbering.antt =====
-- The form of the placeholders that `_PlaceholderSpace` (src/qfa/adapters/presidio_anonymizer.py) hands out.
use qualitative_feedback_ana.Prelude.{
  ℕ, ◌≡◌, ◌≢◌, refl, ap, ◌∙◌, ◌&&◌, Option, none, some, List, [], ◌∷◌, Text, codes, text_eq,
  text_eq-eq, All, All-map, Bool-cases, inl, inr, &&-left,
}
use qualitative_feedback_ana.Anonymizer.Placeholders.{
  Entry, PlaceholderSpace, numbered, find_cached, allocate, placeholder_for,
}
use qualitative_feedback_ana.Anonymizer.Placeholders.Restoring.{Reachable, Reachable-IsRestorable}

abbrev Numbered : Entry → Type 0
Numbered e = (i : ℕ) × (e.placeholder ≡ numbered e.entity_type i)

find_cached-numbered :
    (entity_type value : Text) (es : List Entry) {p : Text}
    → All Numbered es
    → find_cached entity_type value es ≡ some p
    → (i : ℕ) × (p ≡ numbered entity_type i)
unfolding find_cached
find_cached-numbered entity_type value [] h e = cc
find_cached-numbered entity_type value (x ∷ es) h e =
    elim (Bool-cases (text_eq x.entity_type entity_type && text_eq x.value value)) [
      | inl here ↦
          let (i, form) = h.0 in
          (
            i,
            cached (rw here at e)
                ∙ (form
                    ∙ ap (λ t. numbered t i)
                        (text_eq-eq x.entity_type entity_type
                          (&&-left _ (text_eq x.value value) here))),
          )
      | inr other ↦ find_cached-numbered entity_type value es h.1 (rw other at e)
    ]
  where
    cached : {p q : Text} → some q ≡ some p → p ≡ q
    cached f = cc

allocate-numbered :
    (found : Option Text) (value entity_type : Text) (space : PlaceholderSpace)
    → find_cached entity_type value space.by_value ≡ found
    → All Numbered space.by_value
    → (i : ℕ) × ((allocate found value entity_type space).0 ≡ numbered entity_type i)
unfolding allocate
allocate-numbered (some cached) value entity_type space e h =
    find_cached-numbered entity_type value space.by_value h e
allocate-numbered none value entity_type space e h = (space.next_index, refl)

-- A placeholder names its entity type and has a number.
pub placeholder_for-numbered :
    (value entity_type : Text) (space : PlaceholderSpace)
    → Reachable space
    → value ≢ codes "PII"
    → (i : ℕ) × ((placeholder_for value entity_type space).0 ≡ numbered entity_type i)
unfolding placeholder_for
placeholder_for-numbered value entity_type space r not_pii =
    elim (Bool-cases (text_eq value (codes "PII"))) [
      | inl pii ↦ absurd (not_pii (text_eq-eq value (codes "PII") pii))
      | inr other ↦ rw other (
          allocate-numbered (find_cached entity_type value space.by_value) value entity_type space
            refl (All-map (λ x h. (h.0.0, h.0.2)) space.by_value (Reachable-IsRestorable space r)))
    ]
