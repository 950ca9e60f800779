-- ===== src/Coding/Scores.antt =====
-- The floats that src/qfa/services/coding.py computes with: what `float()` gives for digits and dots, which is
-- never NaN, ordered by `<=`. The formats of `round(x * 100)` and `.2f` are parameters as well.
use qualitative_feedback_ana.Prelude.{
  ℕ, ◌≡◌, ◌⊎◌, refl, sym, ap, subst, ◌∙◌, inl, inr, Bool, true, not, Option, List, [], ◌∷◌, Text,
  All, Among, Bool-cases, if◌then◌else◌,
}

pub record Floats : Type 1 where
  pub Float : Type 0
  pub le : Float → Float → Bool
  pub le_total : (a b : Float) → (le a b ≡ true) ⊎ (le b a ≡ true)
  pub le_trans : (a b c : Float) → le a b ≡ true → le b c ≡ true → le a c ≡ true
  pub float_zero : Float
  pub float_one : Float
  -- `float(text)`, where `none` is the ValueError.
  pub float : Text → Option Float
  pub whole_percent : Float → Text
  pub two_decimals : Float → Text
  -- `x * n` and `x / n` for an `int`, and `sum(xs)`, which are rounded.
  pub times : Float → ℕ → Float
  pub over : Float → ℕ → Float
  pub sum : List Float → Float

-- `a < b`
abbrev pub lt : (F : Floats) → F.Float → F.Float → Bool
lt F a b = not (F.le b a)

module _ (F : Floats) where
  -- `min`: the first of the least.
  unfoldable pub min_from : F.Float → List F.Float → F.Float
  min_from least [] = least
  min_from least (x ∷ xs) = min_from (if lt F x least then x else least) xs

  -- One of the scores, and none is less.
  abbrev pub IsLeast : F.Float → List F.Float → Type 0
  IsLeast least scores = Among least scores × All (λ x. F.le least x ≡ true) scores

  le_refl : (x : F.Float) → F.le x x ≡ true
  le_refl x = elim (F.le_total x x) [ inl h ↦ h | inr h ↦ h ]

  not_above :
      (first x y : F.Float) (xs : List F.Float) (least : F.Float)
      → (y ≡ first) ⊎ (y ≡ x)
      → F.le y first ≡ true
      → F.le y x ≡ true
      → IsLeast least (y ∷ xs)
      → IsLeast least (first ∷ x ∷ xs)
  not_above first x y xs least one under_first under_x (m, (below, rest)) = (
    elim m [
      | inl e ↦ elim one [ inl same ↦ inl (e ∙ same) | inr same ↦ inr (inl (e ∙ same)) ]
      | inr later ↦ inr (inr later)
    ],
    (F.le_trans least y first below under_first, (F.le_trans least y x below under_x, rest)),
  )

  pub min_from-IsLeast :
      (first : F.Float) (xs : List F.Float) → IsLeast (min_from first xs) (first ∷ xs)
  unfolding min_from
  min_from-IsLeast first [] = (inl refl, (le_refl first, tt))
  min_from-IsLeast first (x ∷ xs) = elim (Bool-cases (F.le first x)) [
    | inl stays ↦
        subst (λ least. IsLeast least (first ∷ x ∷ xs))
          (ap (λ b. min_from (if not b then x else first) xs) (sym stays))
          (not_above first x first xs (min_from first xs) (inl refl) (le_refl first) stays
            (min_from-IsLeast first xs))
    | inr less ↦
        let under : F.le x first ≡ true = elim (F.le_total first x) [
          | inl h ↦ cc (h, less)
          | inr h ↦ h
        ] in
        subst (λ least. IsLeast least (first ∷ x ∷ xs))
          (ap (λ b. min_from (if not b then x else first) xs) (sym less))
          (not_above first x x xs (min_from x xs) (inr refl) under (le_refl x)
            (min_from-IsLeast x xs))
  ]
