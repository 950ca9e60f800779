-- ===== src/Anonymizer/Placeholders/Restoring.antt =====
-- Placeholders that `_PlaceholderSpace` (src/qfa/adapters/presidio_anonymizer.py) has handed out stand for their values.
use qualitative_feedback_ana.Prelude.{
  ℕ, ◌<◌, ◌≡◌, ◌≢◌, refl, sym, subst, ◌∙◌, false, ◌&&◌, Option, none, some, List, [], ◌∷◌, Text,
  codes, text_eq, text_eq-eq, text_eq_refl, All, All-map, All-append, Among, Among-append_left,
  Bool-cases, inl, inr, arith, &&-right,
}
use qualitative_feedback_ana.Anonymizer.Placeholders.{
  Entry, PlaceholderSpace, empty_space, lookup, assign, find_cached, numbered, allocate,
  placeholder_for, numbered-injective,
}

lookup-assign :
    (key value : Text) (m : List (Text × Text)) → lookup key (assign key value m) ≡ some value
unfolding lookup assign
lookup-assign key value [] = rw (text_eq_refl key) refl
lookup-assign key value ((k, v) ∷ m) = elim (Bool-cases (text_eq k key)) [
  | inl here ↦ rw (here, lookup) (rw here refl)
  | inr other ↦ rw (other, lookup) (rw other (lookup-assign key value m))
]

lookup-assign_other :
    (p key value : Text) (m : List (Text × Text))
    → text_eq key p ≡ false
    → lookup p (assign key value m) ≡ lookup p m
unfolding lookup assign
lookup-assign_other p key value [] h = rw h refl
lookup-assign_other p key value ((k, v) ∷ m) h = elim (Bool-cases (text_eq k key)) [
  | inl here ↦
      let miss = subst (λ z. text_eq z p ≡ false) (sym (text_eq-eq k key here)) h in
      rw (here, lookup) (rw miss refl)
  | inr other ↦
      rw (other, lookup)
        (elim (Bool-cases (text_eq k p)) [
          | inl found ↦ rw found refl
          | inr further ↦ rw further (lookup-assign_other p key value m h)
        ])
]

-- An entry has a number that is used up, and its placeholder is mapped to its value.
abbrev pub IsRestorable : PlaceholderSpace → Type 0
IsRestorable space =
    All
      (λ e.
        ((i : ℕ) × (i < space.next_index) × (e.placeholder ≡ numbered e.entity_type i))
        × (lookup e.placeholder space.mapping ≡ some e.value))
      space.by_value

find_cached-lookup :
    (entity_type value p : Text) (m : List (Text × Text)) (es : List Entry)
    → All (λ e. lookup e.placeholder m ≡ some e.value) es
    → find_cached entity_type value es ≡ some p
    → lookup p m ≡ some value
unfolding find_cached
find_cached-lookup entity_type value p m [] h e = cc
find_cached-lookup entity_type value p m (x ∷ es) h e =
    elim (Bool-cases (text_eq x.entity_type entity_type && text_eq x.value value)) [
      | inl here ↦
          subst (λ v. lookup p m ≡ some v) (text_eq-eq x.value value (&&-right _ _ here))
            (subst (λ q. lookup q m ≡ some x.value) (cached (rw here at e)) h.0)
      | inr other ↦ find_cached-lookup entity_type value p m es h.1 (rw other at e)
    ]
  where
    cached : {q : Text} → some q ≡ some p → q ≡ p
    cached f = cc

different : (s t : Text) → s ≢ t → text_eq s t ≡ false
different s t h = elim (Bool-cases (text_eq s t)) [
  | inl same ↦ absurd (h (text_eq-eq s t same))
  | inr other ↦ other
]

-- What a request has to give: the placeholder is mapped to the value, and all that was restorable stays so.
abbrev Gives : (value : Text) (space : PlaceholderSpace) → Text × PlaceholderSpace → Type 0
Gives value space o =
    (lookup o.0 o.1.mapping ≡ some value)
    × IsRestorable o.1
    × ((e : Entry) → Among e space.by_value → Among e o.1.by_value)

allocate-Gives :
    (found : Option Text) (value entity_type : Text) (space : PlaceholderSpace)
    → find_cached entity_type value space.by_value ≡ found
    → IsRestorable space
    → Gives value space (allocate found value entity_type space)
unfolding allocate
allocate-Gives (some cached) value entity_type space e h = (
  find_cached-lookup entity_type value cached space.mapping space.by_value
      (All-map (λ x r. r.1) space.by_value h) e,
  h,
  λ x m. m,
)
allocate-Gives none value entity_type space e h =
    let n = space.next_index in
    let placeholder = numbered entity_type n in
    let restores = lookup-assign placeholder value space.mapping in
    (
      restores,
      All-append _ space.by_value _
          (All-map
            (λ x ((i, lt, form), kept). (
              (i, omega arith, form),
              lookup-assign_other x.placeholder placeholder value space.mapping (
                    different placeholder x.placeholder (λ same.
                      less_not_equal i n lt
                        (numbered-injective entity_type x.entity_type n i (same ∙ form))))
                  ∙ kept,
            ))
            space.by_value h)
          (((n, omega arith, refl), restores), tt),
      λ x m. Among-append_left x space.by_value _ m,
    )
  where
    less_not_equal : (i n : ℕ) → i < n → n ≡ i → ⊥
    less_not_equal i n lt same = omega arith

-- The spaces that some sequence of requests leads to.
pub data Reachable : PlaceholderSpace → Type 0 where
  at_first : Reachable empty_space
  afterwards :
      (value entity_type : Text) (space : PlaceholderSpace)
      → Reachable space
      → Reachable (placeholder_for value entity_type space).1

placeholder_for-IsRestorable :
    (value entity_type : Text) (space : PlaceholderSpace)
    → IsRestorable space
    → IsRestorable (placeholder_for value entity_type space).1
unfolding placeholder_for
placeholder_for-IsRestorable value entity_type space h =
    elim (Bool-cases (text_eq value (codes "PII"))) [
      | inl pii ↦ rw pii h
      | inr other ↦
          rw other
            (allocate-Gives (find_cached entity_type value space.by_value) value entity_type space
              refl h).1
    ]

pub Reachable-IsRestorable : (space : PlaceholderSpace) → Reachable space → IsRestorable space
Reachable-IsRestorable _ at_first = tt
Reachable-IsRestorable _ (afterwards value entity_type space r) =
    placeholder_for-IsRestorable value entity_type space (Reachable-IsRestorable space r)

-- After any sequence of requests, a request for a value other than `PII` gives a placeholder that is mapped to that value;
-- the placeholders that were given before are still known, and each is mapped to its own value.
pub placeholder_for-lookup :
    (value entity_type : Text) (space : PlaceholderSpace)
    → Reachable space
    → value ≢ codes "PII"
    → (lookup
          (placeholder_for value entity_type space).0
          (placeholder_for value entity_type space).1.mapping
        ≡ some value)
      × IsRestorable (placeholder_for value entity_type space).1
      × ((e : Entry)
          → Among e space.by_value
          → Among e (placeholder_for value entity_type space).1.by_value)
unfolding placeholder_for
placeholder_for-lookup value entity_type space r other = rw (different value (codes "PII") other) (
    allocate-Gives (find_cached entity_type value space.by_value) value entity_type space refl
      (Reachable-IsRestorable space r))
