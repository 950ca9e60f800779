-- ===== src/Coding/Picking.antt =====
-- `build_coding_messages` of src/qfa/services/coding_classifier.py, and which of the picked indices of
-- src/qfa/services/coding.py count.
use qualitative_feedback_ana.Prelude.{
  ℕ, suc, ◌<◌, ◌≡◌, refl, sym, subst, ◌∙◌, lt→ltb, ap, ◌≢◌, inl, inr, true, false, List, [], ◌∷◌,
  ◌++◌, Text, codes, join, arith, any, ltb, if◌then◌else◌, All, All-map, Among, Distinct,
  Bool-cases,
}
use qualitative_feedback_ana.Prelude.Int.{ℤ, pos, negsuc, eqℤ, eqℤ-eq, eqℤ_refl}
use qualitative_feedback_ana.Prelude.Decimal.{decimal}
use qualitative_feedback_ana.Domain.Records.{FeedbackRecordModel}
use qualitative_feedback_ana.Prompts.Envelope.{build_feedback_record_envelope}
use qualitative_feedback_ana.Coding.Framework.{CodePath, format_code_path}

-- `f"{i}: {opt.label}"` for each option.
option_lines : (i : ℕ) → List CodePath → List Text
unfolding decimal format_code_path
option_lines i [] = []
option_lines i (path ∷ options) =
    (decimal i ++ (codes ": " ++ format_code_path path)) ∷ option_lines (suc i) options

-- The user message: empty where there is nothing to select.
unfoldable pub build_coding_message : FeedbackRecordModel → List CodePath → Text
unfolding build_feedback_record_envelope option_lines
build_coding_message r [] = []
build_coding_message r (path ∷ options) =
    build_feedback_record_envelope r false false
    ++ (codes "\n<options>\n"
        ++ (join (codes "\n") (option_lines 0 (path ∷ options)) ++ codes "\n</options>"))

-- `dict.fromkeys(selected)`: the first of equal indices stays.
unique_from : (seen selected : List ℤ) → List ℤ
unique_from seen [] = []
unique_from seen (x ∷ selected) =
    if any (eqℤ x) seen then unique_from seen selected else x ∷ unique_from (x ∷ seen) selected

-- `0 <= idx < len(options)`
in_range : (bound : ℕ) → List ℤ → List ℕ
in_range bound [] = []
in_range bound (pos i ∷ xs) = if ltb i bound then i ∷ in_range bound xs else in_range bound xs
in_range bound (negsuc i ∷ xs) = in_range bound xs

unfoldable pub valid_indices : (selected : List ℤ) (bound : ℕ) → List ℕ
unfolding unique_from in_range
valid_indices selected bound = in_range bound (unique_from [] selected)

in_range-All-lt : (bound : ℕ) (xs : List ℤ) → All (λ i. i < bound) (in_range bound xs)
unfolding in_range
in_range-All-lt bound [] = tt
in_range-All-lt bound (pos i ∷ xs) = ground (arith, in_range-All-lt bound xs)
in_range-All-lt bound (negsuc i ∷ xs) = in_range-All-lt bound xs

All-in_range :
    (P : ℕ → Type 0) (bound : ℕ) (xs : List ℤ)
    → All (λ x. (i : ℕ) → x ≡ pos i → P i) xs
    → All P (in_range bound xs)
unfolding in_range
All-in_range P bound [] h = tt
All-in_range P bound (pos i ∷ xs) h = elim (Bool-cases (ltb i bound)) [
  | inl inside ↦ rw inside (h.0 i refl, All-in_range P bound xs h.1)
  | inr outside ↦ rw outside (All-in_range P bound xs h.1)
]
All-in_range P bound (negsuc i ∷ xs) h = All-in_range P bound xs h.1

in_range-Distinct : (bound : ℕ) (xs : List ℤ) → Distinct xs → Distinct (in_range bound xs)
unfolding in_range
in_range-Distinct bound [] h = tt
in_range-Distinct bound (pos i ∷ xs) h = elim (Bool-cases (ltb i bound)) [
  | inl inside ↦ rw inside (
    All-in_range (λ j. i ≢ j) bound xs
        (All-map (λ y other j e same. other (ap pos same ∙ sym e)) xs h.0),
    in_range-Distinct bound xs h.1,
  )
  | inr outside ↦ rw outside (in_range-Distinct bound xs h.1)
]
in_range-Distinct bound (negsuc i ∷ xs) h = in_range-Distinct bound xs h.1

unseen : (seen xs : List ℤ) → All (λ y. any (eqℤ y) seen ≡ false) (unique_from seen xs)
unfolding unique_from
unseen seen [] = tt
unseen seen (x ∷ xs) = elim (Bool-cases (any (eqℤ x) seen)) [
  | inl known ↦ rw known (unseen seen xs)
  | inr new ↦
      rw new (new, All-map (λ y h. ground arith) (unique_from (x ∷ seen) xs) (unseen (x ∷ seen) xs))
]

unique_from-Distinct : (seen xs : List ℤ) → Distinct (unique_from seen xs)
unfolding unique_from
unique_from-Distinct seen [] = tt
unique_from-Distinct seen (x ∷ xs) = elim (Bool-cases (any (eqℤ x) seen)) [
  | inl known ↦ rw known (unique_from-Distinct seen xs)
  | inr new ↦ rw new (
    All-map (λ y h e. differ x y e h) (unique_from (x ∷ seen) xs) (unseen (x ∷ seen) xs),
    unique_from-Distinct (x ∷ seen) xs,
  )
]
  where
    differ : (x y : ℤ) → x ≡ y → any (eqℤ y) (x ∷ seen) ≡ false → ⊥
    differ x y e h = cc (h, subst (λ z. eqℤ z x ≡ true) e (eqℤ_refl x))

kept :
    (seen xs : List ℤ) (y : ℤ)
    → any (eqℤ y) seen ≡ false
    → Among y xs
    → Among y (unique_from seen xs)
unfolding unique_from
kept seen [] y new m = absurd m
kept seen (x ∷ xs) y new (inl e) = rw (subst (λ z. any (eqℤ z) seen ≡ false) e new) (inl e)
kept seen (x ∷ xs) y new (inr m) = elim (Bool-cases (any (eqℤ x) seen)) [
  | inl known ↦ rw known (kept seen xs y new m)
  | inr fresh ↦ rw fresh (elim (Bool-cases (eqℤ y x)) [
    | inl same ↦ inl (eqℤ-eq y x same)
    | inr other ↦ inr (kept (x ∷ seen) xs y (rw (other, new) refl) m)
  ])
]

in_range_kept :
    (bound : ℕ) (xs : List ℤ) (i : ℕ) → i < bound → Among (pos i) xs → Among i (in_range bound xs)
unfolding in_range
in_range_kept bound [] i h m = absurd m
in_range_kept bound (pos j ∷ xs) i h (inl e) =
    rw (lt→ltb j bound (subst (λ n. n < bound) (same_pos e) h)) (inl (same_pos e))
  where
    same_pos : {a b : ℕ} → pos a ≡ pos b → a ≡ b
    same_pos e = cc
in_range_kept bound (negsuc j ∷ xs) i h (inl e) = cc
in_range_kept bound (pos j ∷ xs) i h (inr m) = elim (Bool-cases (ltb j bound)) [
  | inl inside ↦ rw inside (inr (in_range_kept bound xs i h m))
  | inr outside ↦ rw outside (in_range_kept bound xs i h m)
]
in_range_kept bound (negsuc j ∷ xs) i h (inr m) = in_range_kept bound xs i h m

-- The indices that count are options, each once, and every picked index of an option counts.
pub valid_indices-IsSelection :
    (selected : List ℤ) (bound : ℕ)
    → All (λ i. i < bound) (valid_indices selected bound)
      × Distinct (valid_indices selected bound)
      × ((i : ℕ) → i < bound → Among (pos i) selected → Among i (valid_indices selected bound))
unfolding valid_indices
valid_indices-IsSelection selected bound = (
  in_range-All-lt bound (unique_from [] selected),
  in_range-Distinct bound (unique_from [] selected) (unique_from-Distinct [] selected),
  λ i h m. in_range_kept bound (unique_from [] selected) i h (kept [] selected (pos i) refl m),
)
