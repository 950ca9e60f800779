-- ===== src/Trends/Table.antt =====
-- `build_coding_trend_table` and `render_coding_trend_table` of src/qfa/services/coding_trends.py. A `Counter` is the list of its items, in the order in
-- which the keys came.
pub mod Counter
pub mod Counting
use qualitative_feedback_ana.Prelude.{
  ℕ, suc, ◌≡◌, Bool, true, false, ◌&&◌, Option, none, some, List, [], ◌∷◌, ◌++◌, map, Text, codes,
  join, Unicode, text_eq, text_leb, any, if◌then◌else◌,
}
use qualitative_feedback_ana.Prelude.Sort.{sorted}
use qualitative_feedback_ana.Prelude.Decimal.{decimal}
use qualitative_feedback_ana.Domain.Records.{AnalysisRecord, feedback, meeting}
use qualitative_feedback_ana.Trends.Buckets.{TrendPeriod, period_of, codes_in_record}

pub record CodingTrendCell : Type 0 where
  pub code : Text
  pub period : Text
  pub count : ℕ

pub record CodingTrendTable : Type 0 where
  pub periods : List Text
  pub cells : List CodingTrendCell

abbrev pub is_cell : (code period : Text) → CodingTrendCell → Bool
is_cell code period cell = text_eq code cell.code && text_eq period cell.period

-- `counter[(code, period)] += 1`
unfoldable pub add_one : (code period : Text) → List CodingTrendCell → List CodingTrendCell
add_one code period [] = record { code = code; period = period; count = 1 } ∷ []
add_one code period (cell ∷ cells) =
    if is_cell code period cell
    then record cell { count = suc cell.count } ∷ cells
    else cell ∷ add_one code period cells

unfoldable pub add_codes :
    (labels : List Text) (period : Text) → List CodingTrendCell → List CodingTrendCell
unfolding add_one
add_codes [] period counter = counter
add_codes (code ∷ labels) period counter = add_codes labels period (add_one code period counter)

-- `periods.add(bucket)`
abbrev pub add_period : Text → List Text → List Text
add_period bucket periods =
    if any (text_eq bucket) periods then periods else periods ++ (bucket ∷ [])

-- The order of the items: by code, then by period. Two items never have the same key.
abbrev pub cell_leb : CodingTrendCell → CodingTrendCell → Bool
cell_leb a b = if text_eq a.code b.code then text_leb a.period b.period else text_leb a.code b.code

module _ (u : Unicode) (iso_week : (y m d : Text) → Option (ℕ × ℕ)) (code_fields : List Text)
    (period : TrendPeriod) where
  -- The loop over the records.
  unfoldable pub count_records :
      List AnalysisRecord → List CodingTrendCell → List Text → List CodingTrendCell × List Text
  unfolding period_of codes_in_record add_codes
  count_records [] counter periods = (counter, periods)
  count_records (meeting r ∷ records) counter periods = count_records records counter periods
  count_records (feedback r ∷ records) counter periods =
      let undated = count_records records counter periods in
      elim (period_of u iso_week r.metadata.created period) [
        | none ↦ undated
        | some bucket ↦
            count_records records (add_codes (codes_in_record u r code_fields) bucket counter)
              (add_period bucket periods)
      ]

  unfoldable pub build_coding_trend_table : List AnalysisRecord → Option CodingTrendTable
  unfolding count_records sorted
  build_coding_trend_table records =
      let (counter, periods) = count_records records [] [] in
      elim periods [
        | [] ↦ none
        | bucket ∷ buckets ↦
            some record {
              periods = sorted text_leb (bucket ∷ buckets);
              cells = sorted cell_leb counter;
            }
      ]

-- `lookup.get((code, period), 0)`
unfoldable pub lookup : (code period : Text) → List CodingTrendCell → ℕ
lookup code period [] = 0
lookup code period (cell ∷ cells) =
    if is_cell code period cell then cell.count else lookup code period cells

abbrev pub distinct_codes : List CodingTrendCell → List Text
distinct_codes [] = []
distinct_codes (cell ∷ cells) =
    if any (text_eq cell.code) (distinct_codes cells)
    then distinct_codes cells
    else cell.code ∷ distinct_codes cells

unfoldable pub render_coding_trend_table : CodingTrendTable → Text
unfolding lookup sorted
render_coding_trend_table table = join (codes "\n") (
    (codes "code," ++ join (codes ",") table.periods)
    ∷ map
        (λ code.
          join (codes ",") (code ∷ map (λ p. decimal (lookup code p table.cells)) table.periods))
        (sorted text_leb (distinct_codes table.cells)))
