-- ===== src/Anonymizer/Placeholders.antt =====
-- `_PlaceholderSpace` of src/qfa/adapters/presidio_anonymizer.py. Its two dictionaries are lists of entries in the order of
-- insertion; an assignment to a key that is there replaces its value.
pub mod Restoring
pub mod Numbering
use qualitative_feedback_ana.Prelude.{
  ℕ, suc, ◌+◌, ◌<◌, ◌≡◌, ◌≢◌, refl, sym, ap, subst, ◌∙◌, Bool, true, false, ◌&&◌, Option, none,
  some, List, [], ◌∷◌, ◌++◌, Text, codes, text_eq, text_eq-eq, text_eq_refl, ◌==◌, if◌then◌else◌,
  All, All-map, All-append, Bool-cases, Option-cases, inl, inr, arith, &&-left, &&-right,
}
use qualitative_feedback_ana.Prelude.Decimal.{decimal, decimal-injective, decimal_below_58}

-- `_by_value` has the entity type and the value as its key.
pub record Entry : Type 0 where
  pub entity_type : Text
  pub value : Text
  pub placeholder : Text

pub record PlaceholderSpace : Type 0 where
  pub mapping : List (Text × Text)
  pub by_value : List Entry
  pub next_index : ℕ

abbrev pub empty_space : PlaceholderSpace
empty_space = record { mapping = []; by_value = []; next_index = 0 }

unfoldable pub lookup : Text → List (Text × Text) → Option Text
lookup key [] = none
lookup key ((k, v) ∷ m) = if text_eq k key then some v else lookup key m

assign : (key value : Text) → List (Text × Text) → List (Text × Text)
assign key value [] = (key, value) ∷ []
assign key value ((k, v) ∷ m) =
    if text_eq k key then (k, value) ∷ m else (k, v) ∷ assign key value m

find_cached : (entity_type value : Text) → List Entry → Option Text
find_cached entity_type value [] = none
find_cached entity_type value (e ∷ es) =
    if text_eq e.entity_type entity_type && text_eq e.value value
    then some e.placeholder
    else find_cached entity_type value es

-- `f"<{entity_type}_{index}>"`
unfoldable pub numbered : (entity_type : Text) (index : ℕ) → Text
numbered entity_type index = codes "<" ++ (entity_type ++ b'_' ∷ (decimal index ++ codes ">"))

allocate : Option Text → (value entity_type : Text) → PlaceholderSpace → Text × PlaceholderSpace
unfolding assign numbered
allocate (some cached) value entity_type space = (cached, space)
allocate none value entity_type space =
    let placeholder = numbered entity_type space.next_index in
    (
      placeholder,
      record {
        mapping = assign placeholder value space.mapping;
        by_value =
            space.by_value
            ++ record { entity_type = entity_type; value = value; placeholder = placeholder } ∷ [];
        next_index = suc space.next_index;
      },
    )

unfoldable pub placeholder_for :
    (value entity_type : Text) → PlaceholderSpace → Text × PlaceholderSpace
unfolding find_cached allocate
placeholder_for value entity_type space =
    if text_eq value (codes "PII")
    then (codes "<PII>", space)
    else allocate (find_cached entity_type value space.by_value) value entity_type space

-- What follows the last underscore.
after_last : (rest text : Text) → Text
after_last rest [] = rest
after_last rest (c ∷ s) = if c == b'_' then after_last s s else after_last rest s

after_last_none : (rest s : Text) → All (λ c. (c == b'_') ≡ false) s → after_last rest s ≡ rest
unfolding after_last
after_last_none rest [] h = refl
after_last_none rest (c ∷ s) h = rw h.0 (after_last_none rest s h.1)

after_last-append :
    (rest front back : Text)
    → All (λ c. (c == b'_') ≡ false) back
    → after_last rest (front ++ b'_' ∷ back) ≡ back
unfolding after_last
after_last-append rest [] back h = after_last_none back back h
after_last-append rest (c ∷ front) back h = elim (Bool-cases (c == b'_')) [
  | inl here ↦ rw here (after_last-append (front ++ b'_' ∷ back) front back h)
  | inr other ↦ rw other (after_last-append rest front back h)
]

front_of : Text → Text
front_of [] = []
front_of (c ∷ []) = []
front_of (c ∷ d ∷ s) = c ∷ front_of (d ∷ s)

front_of-append : (s : Text) (c : ℕ) → front_of (s ++ c ∷ []) ≡ s
unfolding front_of
front_of-append [] c = refl
front_of-append (d ∷ []) c = refl
front_of-append (d ∷ e ∷ s) c = ap (◌∷◌ d) (front_of-append (e ∷ s) c)

digits_plain : (n : ℕ) → All (λ c. (c == b'_') ≡ false) (decimal n ++ codes ">")
digits_plain n =
    All-append (λ c. (c == b'_') ≡ false) (decimal n) (codes ">")
      (All-map (λ c lt. no_underscore c lt) (decimal n) (decimal_below_58 n)) (refl, tt)
  where
    no_underscore : (c : ℕ) → c < 58 → (c == b'_') ≡ false
    no_underscore c lt = ground arith

-- Placeholders with different numbers are different, whatever the entity types.
numbered-injective : (s t : Text) (i j : ℕ) → numbered s i ≡ numbered t j → i ≡ j
unfolding numbered
numbered-injective s t i j e =
    let digits =
      sym (after_last-append [] (codes "<" ++ s) (decimal i ++ codes ">") (digits_plain i))
      ∙ ap (after_last []) e
      ∙ after_last-append [] (codes "<" ++ t) (decimal j ++ codes ">") (digits_plain j) in
    decimal-injective i j (
      sym (front_of-append (decimal i) b'>')
      ∙ ap front_of digits
      ∙ front_of-append (decimal j) b'>')
