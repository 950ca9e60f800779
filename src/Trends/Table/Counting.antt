-- ===== src/Trends/Table/Counting.antt =====
-- What the table of src/qfa/services/coding_trends.py counts: each label of each dated record, once for each time it stands there.
use qualitative_feedback_ana.Prelude.{
  ℕ, ◌+◌, ◌≡◌, refl, sym, ap, ◌∙◌, Option, none, some, List, [], ◌∷◌, Text, Unicode, text_eq,
  text_leb, if◌then◌else◌, Option-cases, inl, inr, arith,
}
use qualitative_feedback_ana.Prelude.Sort.{sorted, Pairwise}
use qualitative_feedback_ana.Domain.Records.{AnalysisRecord, FeedbackRecordModel, feedback, meeting}
use qualitative_feedback_ana.Trends.Buckets.{TrendPeriod, period_of, codes_in_record}
use qualitative_feedback_ana.Trends.Table.{
  CodingTrendCell, CodingTrendTable, add_codes, add_period, count_records, build_coding_trend_table,
  lookup, cell_leb,
}
use qualitative_feedback_ana.Trends.Table.Counter.{
  times, Differ, lookup-sorted, lookup-add_codes, add_codes-Pairwise,
}

module _ (u : Unicode) (iso_week : (y m d : Text) → Option (ℕ × ℕ)) (code_fields : List Text)
    (period : TrendPeriod) where
  -- How often the records of a period have a label.
  pub occurrences : (code bucket : Text) → List AnalysisRecord → ℕ
  occurrences code bucket [] = 0
  occurrences code bucket (meeting r ∷ records) = occurrences code bucket records
  occurrences code bucket (feedback r ∷ records) =
      elim (period_of u iso_week r.metadata.created period) [
        | none ↦ occurrences code bucket records
        | some its ↦
            (if text_eq bucket its then times code (codes_in_record u r code_fields) else 0)
            + occurrences code bucket records
      ]

module _ (u : Unicode) (iso_week : (y m d : Text) → Option (ℕ × ℕ)) (code_fields : List Text)
    (period : TrendPeriod) where
  undated_record :
      (r : FeedbackRecordModel) (records : List AnalysisRecord) (cells : List CodingTrendCell)
      (periods : List Text)
      → period_of u iso_week r.metadata.created period ≡ none
      → count_records u iso_week code_fields period (feedback r ∷ records) cells periods
        ≡ count_records u iso_week code_fields period records cells periods
  unfolding count_records
  undated_record r records cells periods e = rw (count_records, e) refl

  dated_record :
      (r : FeedbackRecordModel) (records : List AnalysisRecord) (cells : List CodingTrendCell)
      (periods : List Text) {its : Text}
      → period_of u iso_week r.metadata.created period ≡ some its
      → count_records u iso_week code_fields period (feedback r ∷ records) cells periods
        ≡ count_records u iso_week code_fields period records
            (add_codes (codes_in_record u r code_fields) its cells)
            (add_period its periods)
  unfolding count_records
  dated_record r records cells periods e = rw (count_records, e) refl

  occurrences_undated :
      (code bucket : Text) (r : FeedbackRecordModel) (records : List AnalysisRecord)
      → period_of u iso_week r.metadata.created period ≡ none
      → occurrences u iso_week code_fields period code bucket (feedback r ∷ records)
        ≡ occurrences u iso_week code_fields period code bucket records
  unfolding occurrences
  occurrences_undated code bucket r records e = rw (occurrences, e) refl

  occurrences_dated :
      (code bucket : Text) (r : FeedbackRecordModel) (records : List AnalysisRecord) {its : Text}
      → period_of u iso_week r.metadata.created period ≡ some its
      → occurrences u iso_week code_fields period code bucket (feedback r ∷ records)
        ≡ (if text_eq bucket its then times code (codes_in_record u r code_fields) else 0)
          + occurrences u iso_week code_fields period code bucket records
  unfolding occurrences
  occurrences_dated code bucket r records e = rw (occurrences, e) refl

  count_records-occurrences :
      (code bucket : Text) (records : List AnalysisRecord) (cells : List CodingTrendCell)
      (periods : List Text)
      → lookup code bucket (count_records u iso_week code_fields period records cells periods).0
        ≡ occurrences u iso_week code_fields period code bucket records + lookup code bucket cells
  unfolding count_records occurrences
  count_records-occurrences code bucket [] cells periods = omega arith
  count_records-occurrences code bucket (meeting r ∷ records) cells periods =
      count_records-occurrences code bucket records cells periods
  count_records-occurrences code bucket (feedback r ∷ records) cells periods =
      elim (Option-cases (period_of u iso_week r.metadata.created period)) [
        | inl undated ↦
            rw
              (
                undated_record r records cells periods undated,
                occurrences_undated code bucket r records undated,
              )
              (count_records-occurrences code bucket records cells periods)
        | inr (its, dated) ↦
            rw
              (
                dated_record r records cells periods dated,
                occurrences_dated code bucket r records dated,
              )
              (omega (
                arith,
                count_records-occurrences code bucket records
                    (add_codes (codes_in_record u r code_fields) its cells)
                    (add_period its periods),
                lookup-add_codes code bucket (codes_in_record u r code_fields) its cells,
              ))
      ]

  count_records-Pairwise :
      (records : List AnalysisRecord) (cells : List CodingTrendCell) (periods : List Text)
      → Pairwise Differ cells
      → Pairwise Differ (count_records u iso_week code_fields period records cells periods).0
  unfolding count_records
  count_records-Pairwise [] cells periods h = h
  count_records-Pairwise (meeting r ∷ records) cells periods h =
      count_records-Pairwise records cells periods h
  count_records-Pairwise (feedback r ∷ records) cells periods h =
      elim (Option-cases (period_of u iso_week r.metadata.created period)) [
        | inl undated ↦
            rw (undated_record r records cells periods undated)
              (count_records-Pairwise records cells periods h)
        | inr (its, dated) ↦ rw (dated_record r records cells periods dated) (
            count_records-Pairwise records (add_codes (codes_in_record u r code_fields) its cells)
              (add_period its periods)
              (add_codes-Pairwise (codes_in_record u r code_fields) its cells h))
      ]

  -- For each label and each period, the table has the number of times that the label stands in the dated records of that period, and 0 where
  -- it has no cell.
  pub lookup-build_coding_trend_table :
      (records : List AnalysisRecord) {table : CodingTrendTable}
      → build_coding_trend_table u iso_week code_fields period records ≡ some table
      → (code bucket : Text)
      → lookup code bucket table.cells
        ≡ occurrences u iso_week code_fields period code bucket records
  unfolding build_coding_trend_table
  lookup-build_coding_trend_table records {table} e code bucket =
      go _ _ (count_records-Pairwise records [] [] tt)
        (count_records-occurrences code bucket records [] []) e
    where
      go :
          (cells : List CodingTrendCell) (periods : List Text)
          → Pairwise Differ cells
          → lookup code bucket cells
            ≡ occurrences u iso_week code_fields period code bucket records + lookup code bucket []
          → (elim periods as (λ _. Option CodingTrendTable) [
            | [] ↦ none
            | first ∷ rest ↦
                some
                  record { periods = sorted text_leb (first ∷ rest); cells = sorted cell_leb cells }
          ])
            ≡ some table
          → lookup code bucket table.cells
            ≡ occurrences u iso_week code_fields period code bucket records
      go cells [] distinct h e = cc
      go cells (first ∷ rest) distinct h e =
          let same : sorted cell_leb cells ≡ table.cells = cc e in
          sym (ap (lookup code bucket) same)
          ∙ (lookup-sorted code bucket cells distinct ∙ (h ∙ unfold lookup in omega arith))
