-- ===== src/Trends/Table/Counter.antt =====
-- The counter of src/qfa/services/coding_trends.py: what it holds for a key after labels have been added, and after it has been sorted.
use qualitative_feedback_ana.Prelude.{
  ℕ, suc, ◌+◌, ◌≡◌, ◌≢◌, refl, sym, subst, ◌∙◌, Bool, true, false, ◌&&◌, List, [], ◌∷◌, Text,
  text_eq, text_eq-eq, text_eq_refl, text_eq_sym, &&-left, &&-right, if◌then◌else◌, Bool-cases, inl,
  inr, arith, All,
}
use qualitative_feedback_ana.Prelude.Sort.{sorted, Pairwise, unordered-sorted}
use qualitative_feedback_ana.Trends.Table.{
  CodingTrendCell, is_cell, add_one, add_codes, lookup, cell_leb,
}

-- How often a label stands in a list of labels.
abbrev pub times : (code : Text) → List Text → ℕ
times code [] = 0
times code (label ∷ labels) =
    if text_eq code label then suc (times code labels) else times code labels

is_cell-eq :
    (code bucket : Text) (cell : CodingTrendCell)
    → is_cell code bucket cell ≡ true
    → (code ≡ cell.code) × (bucket ≡ cell.period)
is_cell-eq code bucket cell e = (
  text_eq-eq code cell.code (&&-left _ (text_eq bucket cell.period) e),
  text_eq-eq bucket cell.period (&&-right (text_eq code cell.code) _ e),
)

lookup-add_one :
    (code bucket code' bucket' : Text) (cells : List CodingTrendCell)
    → lookup code bucket (add_one code' bucket' cells) ≡ (
        if text_eq code code' && text_eq bucket bucket'
        then suc (lookup code bucket cells)
        else lookup code bucket cells)
unfolding lookup add_one
lookup-add_one code bucket code' bucket' [] = ground arith
lookup-add_one code bucket code' bucket' (cell ∷ cells) =
    elim (Bool-cases (is_cell code' bucket' cell)) [
      | inl this ↦
          let (c, b) = is_cell-eq code' bucket' cell this in
          rw this (rw (c, b) (counted (is_cell code bucket cell)))
      | inr other ↦ elim (Bool-cases (is_cell code bucket cell)) [
        | inl here ↦
            let (c, b) = is_cell-eq code bucket cell here in
            rw (other, here, different c b other) refl
        | inr later ↦ rw (other, later) (lookup-add_one code bucket code' bucket' cells)
      ]
    ]
  where
    true_false : true ≢ false
    true_false e = cc

    counted :
        (t : Bool)
        → (if t then suc cell.count else lookup code bucket cells) ≡ (
            if t
            then suc (if t then cell.count else lookup code bucket cells)
            else (if t then cell.count else lookup code bucket cells))
    counted t = ground arith

    different :
        code ≡ cell.code
        → bucket ≡ cell.period
        → is_cell code' bucket' cell ≡ false
        → (text_eq code code' && text_eq bucket bucket') ≡ false
    different c b other = elim (Bool-cases (text_eq code code' && text_eq bucket bucket')) [
      | inl both ↦
          let here : is_cell cell.code cell.period cell ≡ true =
            rw (text_eq_refl cell.code, text_eq_refl cell.period) refl in
          let c' : cell.code ≡ code' =
            sym c ∙ text_eq-eq code code' (&&-left _ (text_eq bucket bucket') both) in
          let b' : cell.period ≡ bucket' =
            sym b ∙ text_eq-eq bucket bucket' (&&-right (text_eq code code') _ both) in
          absurd (
            true_false (
              sym (
                subst (λ z. is_cell code' z cell ≡ true) b'
                  (subst (λ z. is_cell z cell.period cell ≡ true) c' here))
              ∙ other))
      | inr e ↦ e
    ]

-- The cells have different keys.
abbrev pub Differ : CodingTrendCell → CodingTrendCell → Type 0
Differ a b = is_cell a.code a.period b ≡ false

add_one-Differ :
    (cell : CodingTrendCell) (code bucket : Text) (cells : List CodingTrendCell)
    → is_cell code bucket cell ≡ false
    → All (Differ cell) cells
    → All (Differ cell) (add_one code bucket cells)
unfolding add_one
add_one-Differ cell code bucket [] e h = (other e, tt)
  where
    other :
        is_cell code bucket cell ≡ false
        → (text_eq cell.code code && text_eq cell.period bucket) ≡ false
    other e = rw (text_eq_sym cell.code code, text_eq_sym cell.period bucket) e
add_one-Differ cell code bucket (first ∷ cells) e h =
    elim (Bool-cases (is_cell code bucket first)) [
      | inl this ↦ rw this h
      | inr later ↦ rw later (h.0, add_one-Differ cell code bucket cells e h.1)
    ]

add_one-Pairwise :
    (code bucket : Text) (cells : List CodingTrendCell)
    → Pairwise Differ cells
    → Pairwise Differ (add_one code bucket cells)
unfolding add_one
add_one-Pairwise code bucket [] h = (tt, tt)
add_one-Pairwise code bucket (cell ∷ cells) h = elim (Bool-cases (is_cell code bucket cell)) [
  | inl this ↦ rw this h
  | inr later ↦
      rw later
        (add_one-Differ cell code bucket cells later h.0, add_one-Pairwise code bucket cells h.1)
]

pub lookup-sorted :
    (code bucket : Text) (cells : List CodingTrendCell)
    → Pairwise Differ cells
    → lookup code bucket (sorted cell_leb cells) ≡ lookup code bucket cells
unfolding lookup
lookup-sorted code bucket =
    unordered-sorted cell_leb (lookup code bucket) Differ swap (λ x ys zs e. rw e refl)
  where
    swap :
        (x y : CodingTrendCell) (zs : List CodingTrendCell)
        → Differ x y
        → lookup code bucket (x ∷ y ∷ zs) ≡ lookup code bucket (y ∷ x ∷ zs)
    swap x y zs d = elim (Bool-cases (is_cell code bucket x)) [
      | inl here ↦
          let (c, b) = is_cell-eq code bucket x here in
          rw
            (
              here,
              subst (λ z. is_cell code z y ≡ false) (sym b)
                  (subst (λ z. is_cell z x.period y ≡ false) (sym c) d),
            )
            refl
      | inr other ↦ rw other refl
    ]

pub lookup-add_codes :
    (code bucket : Text) (labels : List Text) (its : Text) (cells : List CodingTrendCell)
    → lookup code bucket (add_codes labels its cells)
      ≡ (if text_eq bucket its then times code labels else 0) + lookup code bucket cells
unfolding add_codes
lookup-add_codes code bucket [] its cells = ground arith
lookup-add_codes code bucket (label ∷ labels) its cells = grind (
  arith,
  lookup-add_codes code bucket labels its (add_one label its cells),
  lookup-add_one code bucket label its cells,
)

pub add_codes-Pairwise :
    (labels : List Text) (its : Text) (cells : List CodingTrendCell)
    → Pairwise Differ cells
    → Pairwise Differ (add_codes labels its cells)
unfolding add_codes
add_codes-Pairwise [] its cells h = h
add_codes-Pairwise (label ∷ labels) its cells h =
    add_codes-Pairwise labels its (add_one label its cells) (add_one-Pairwise label its cells h)
