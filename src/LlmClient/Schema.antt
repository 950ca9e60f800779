-- ===== src/LlmClient/Schema.antt =====
-- `_strip_unsupported_schema_keywords` of src/qfa/adapters/llm_client.py on JSON values. A dictionary is the list of its items.
use qualitative_feedback_ana.Prelude.{
  ℕ, zero, suc, ◌≡◌, refl, Bool, true, false, not, Option, none, some, List, [], ◌∷◌, Text, codes,
  text_eq, text_eq-eq, any, if◌then◌else◌, Bool-cases, inl, inr, sym, if_same, Option-cases, subst,
  all, ◌∙◌,
}

mutual
  pub data Json : Type 0 where
    scalar : (printed : Text) → Json
    array : (items : JsonItems) → Json
    object : (fields : JsonFields) → Json

  pub data JsonItems : Type 0 where
    no_items : JsonItems
    item : (value : Json) (rest : JsonItems) → JsonItems

  pub data JsonFields : Type 0 where
    no_fields : JsonFields
    field : (key : Text) (value : Json) (rest : JsonFields) → JsonFields

-- `_UNSUPPORTED_SCHEMA_KEYWORDS`
abbrev pub unsupported_schema_keywords : List Text
unsupported_schema_keywords =
    codes "minimum"
    ∷ codes "maximum"
    ∷ codes "exclusiveMinimum"
    ∷ codes "exclusiveMaximum"
    ∷ codes "multipleOf"
    ∷ codes "minLength"
    ∷ codes "maxLength"
    ∷ codes "pattern"
    ∷ codes "minItems"
    ∷ codes "maxItems"
    ∷ codes "uniqueItems"
    ∷ codes "minProperties"
    ∷ codes "maxProperties"
    ∷ []

unfoldable pub unsupported : Text → Bool
unsupported key = any (text_eq key) unsupported_schema_keywords

unfoldable mutual
  unfolding unsupported

  pub strip_unsupported_schema_keywords : Json → Json
  strip_unsupported_schema_keywords (scalar printed) = scalar printed
  strip_unsupported_schema_keywords (array items) = array (strip_items items)
  strip_unsupported_schema_keywords (object fields) = object (strip_fields fields)

  pub strip_items : JsonItems → JsonItems
  strip_items no_items = no_items
  strip_items (item value rest) = item (strip_unsupported_schema_keywords value) (strip_items rest)

  pub strip_fields : JsonFields → JsonFields
  strip_fields no_fields = no_fields
  strip_fields (field key value rest) =
      if unsupported key
      then strip_fields rest
      else field key (strip_unsupported_schema_keywords value) (strip_fields rest)

-- One step into a value: the key of an object or an index of an array.
pub data Step : Type 0 where
  at_key : Text → Step
  at_index : ℕ → Step

pub lookup_field : Text → JsonFields → Option Json
lookup_field key no_fields = none
lookup_field key (field k value rest) = if text_eq k key then some value else lookup_field key rest

pub lookup_item : ℕ → JsonItems → Option Json
lookup_item i no_items = none
lookup_item zero (item value rest) = some value
lookup_item (suc i) (item value rest) = lookup_item i rest

step_into : Step → Json → Option Json
unfolding lookup_field lookup_item
step_into (at_key key) (object fields) = lookup_field key fields
step_into (at_index i) (array items) = lookup_item i items
step_into _ _ = none

-- The value at the end of a path.
unfoldable pub value_at : List Step → Json → Option Json
unfolding step_into
value_at [] j = some j
value_at (s ∷ path) j = elim (step_into s j) [ none ↦ none | some k ↦ value_at path k ]

value_at_step :
    (s : Step) (path : List Step) (j : Json) (k : Option Json)
    → step_into s j ≡ k
    → value_at (s ∷ path) j ≡ elim k [ none ↦ none | some v ↦ value_at path v ]
unfolding value_at
value_at_step s path j k e = rw (← e) refl

-- A step by a supported key, or by an index.
abbrev pub supported : Step → Bool
supported (at_key key) = not (unsupported key)
supported (at_index i) = true

abbrev pub stripped? : Option Json → Option Json
stripped? none = none
stripped? (some j) = some (strip_unsupported_schema_keywords j)

-- A field that is not kept does not matter to a supported key, and no unsupported key is left.
lookup_field-strip :
    (key : Text) (fields : JsonFields)
    → lookup_field key (strip_fields fields)
      ≡ (if unsupported key then none else stripped? (lookup_field key fields))
unfolding lookup_field strip_unsupported_schema_keywords
lookup_field-strip key no_fields = elim (Bool-cases (unsupported key)) [
  | inl dropped ↦ rw dropped refl
  | inr kept ↦ rw kept refl
]
lookup_field-strip key (field k value rest) = elim (Bool-cases (unsupported k)) [
  | inl dropped ↦ elim (Bool-cases (text_eq k key)) [
    | inl same ↦
        let also_dropped = subst (λ z. unsupported z ≡ true) (text_eq-eq k key same) dropped in
        rw dropped (lookup_field-strip key rest ∙ rw also_dropped refl)
    | inr other ↦ rw (dropped, other) (lookup_field-strip key rest)
  ]
  | inr kept ↦ elim (Bool-cases (text_eq k key)) [
    | inl same ↦
        let also_kept = subst (λ z. unsupported z ≡ false) (text_eq-eq k key same) kept in
        rw (kept, same, also_kept) refl
    | inr other ↦ rw (kept, other) (lookup_field-strip key rest)
  ]
]

lookup_item-strip :
    (i : ℕ) (items : JsonItems)
    → lookup_item i (strip_items items) ≡ stripped? (lookup_item i items)
unfolding lookup_item strip_unsupported_schema_keywords
lookup_item-strip zero no_items = refl
lookup_item-strip (suc i) no_items = refl
lookup_item-strip zero (item value rest) = refl
lookup_item-strip (suc i) (item value rest) = lookup_item-strip i rest

step_into-strip :
    (s : Step) (j : Json)
    → step_into s (strip_unsupported_schema_keywords j)
      ≡ (if supported s then stripped? (step_into s j) else none)
unfolding step_into strip_unsupported_schema_keywords
step_into-strip (at_key key) (object fields) = elim (Bool-cases (unsupported key)) [
  | inl e ↦ rw (e, lookup_field-strip key fields) (rw e refl)
  | inr e ↦ rw (e, lookup_field-strip key fields) (rw e refl)
]
step_into-strip (at_index i) (array items) = lookup_item-strip i items
step_into-strip s _ = sym (if_same (supported s) none)

-- What stands at a path of a stripped value: if each key of the path is supported, then the stripped value from that place, or nothing where
-- nothing was, and nothing at all otherwise.
pub value_at-strip :
    (path : List Step) (j : Json)
    → value_at path (strip_unsupported_schema_keywords j)
      ≡ (if all supported path then stripped? (value_at path j) else none)
value_at-strip [] j = unfold value_at in refl
value_at-strip (s ∷ path) j = elim (Bool-cases (supported s)) [
  | inl e ↦ elim (Option-cases (step_into s j)) [
    | inl nothing ↦
        rw
          (
            e,
            value_at_step s path j none nothing,
            value_at_step s path _ none (step_into-strip s j ∙ (rw (e, nothing) refl)),
          )
          (sym (if_same (all supported path) none))
    | inr (v, found) ↦
        rw
          (
            e,
            value_at_step s path j (some v) found,
            value_at_step s path _ (some (strip_unsupported_schema_keywords v))
                (step_into-strip s j ∙ (rw (e, found) refl)),
          )
          (value_at-strip path v)
  ]
  | inr e ↦ rw (e, value_at_step s path _ none (step_into-strip s j ∙ (rw e refl))) refl
]
