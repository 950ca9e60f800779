-- ===== src/Clustering/Records.antt =====
-- `cluster_records` of src/qfa/services/clustering.py. HDBSCAN is a parameter: what the code relies
-- on is that `fit_predict`, where it returns, labels every row of the matrix.
pub mod Coverage
use mathlib.Core.List.{Perm}
use qualitative_feedback_ana.Prelude.{
  ℕ, ◌<◌, min, ◌≡◌, refl, Bool, true, false, not, ◌&&◌, ◌||◌, Option, none, some, List, [], ◌∷◌,
  ◌++◌, map, arith, Text, text_eq, Unicode, length, flatten, any, all, All, ltb, ◌==◌,
  if◌then◌else◌, Bool-cases, inl, inr, map-append, flatten-append, All-append,
}
use qualitative_feedback_ana.Prelude.Int.{ℤ, negsuc, eqℤ}
use qualitative_feedback_ana.Domain.Records.{AnalysisRecord, record_id}
use qualitative_feedback_ana.Domain.Chunks.{Chunk}
use qualitative_feedback_ana.Domain.Errors.{
  Result, ok, err, value_error, assertion_error, index_error, ◌>>=◌,
}
use qualitative_feedback_ana.Clustering.Dates.{sort_by_date, sort_by_date-perm}
use qualitative_feedback_ana.Clustering.Budget.{
  budgeted_chunks, flatten-budgeted_chunks, IsBudgeted, budgeted_chunks-IsBudgeted,
}
use qualitative_feedback_ana.Clustering.Labels.{
  Groups, by_label_sorted, pick, indices_of, pick-by_label_sorted-perm, All-pick_pos,
}

-- `hdbscan.HDBSCAN(min_cluster_size=..., metric=...).fit_predict(matrix)`
pub record Hdbscan : Type 1 where
  pub Vector : Type 0
  pub fit_predict : (min_cluster_size : ℕ) (metric : Text) (matrix : List Vector) → Result (List ℤ)
  pub length-fit_predict :
      (min_cluster_size : ℕ) (metric : Text) (matrix : List Vector) (labels : List ℤ)
      → fit_predict min_cluster_size metric matrix ≡ ok labels
      → length labels ≡ length matrix

-- Equality of the sets of the elements of two lists.
abbrev pub same_set : List Text → List Text → Bool
same_set xs ys = all (λ x. any (text_eq x) ys) xs && all (λ y. any (text_eq y) xs) ys

abbrev pub chunk_records : List Chunk → List AnalysisRecord
chunk_records chunks = flatten (map (λ c. c.records) chunks)

abbrev pub split_budget : Option ℕ → ℕ → ℕ
split_budget none max_total_tokens = max_total_tokens
split_budget (some target) max_total_tokens = min target max_total_tokens

module _ (u : Unicode) (records : List AnalysisRecord) (budget chars_per_token : ℕ) where
  -- The loop over the sorted groups.
  chunks_from : Groups → List Chunk
  chunks_from [] = []
  chunks_from ((label, indices) ∷ groups) =
      budgeted_chunks budget chars_per_token label (eqℤ label (negsuc 0))
        (sort_by_date u (pick records indices))
      ++ chunks_from groups

  -- The check of the coverage, before the chunks are returned.
  check_coverage : List Chunk → Result (List Chunk)
  check_coverage chunks =
      if not (same_set (map record_id (chunk_records chunks)) (map record_id records))
      then err assertion_error
      else ok chunks

  -- `records[i]` raises for a label beyond the records.
  group_and_chunk : List ℤ → Result (List Chunk)
  unfolding chunks_from check_coverage
  group_and_chunk labels =
      if ltb (length records) (length labels)
      then err index_error
      else check_coverage (chunks_from (by_label_sorted labels))

unfoldable pub cluster_records :
    Unicode
    → (h : Hdbscan) (records : List AnalysisRecord) (vectors : List h.Vector)
      (min_cluster_size max_total_tokens chars_per_token : ℕ) (metric : Text)
      (target_chunk_tokens : Option ℕ)
    → Result (List Chunk)
unfolding group_and_chunk
cluster_records u h records vectors min_cluster_size max_total_tokens chars_per_token metric
      target =
    let budget = split_budget target max_total_tokens in
    if not (length records == length vectors)
    then err value_error
    else if length records == 0
    then ok []
    else if ltb (length records) min_cluster_size
    then ok (budgeted_chunks budget chars_per_token (negsuc 0) true (sort_by_date u records))
    else (do
      labels ← h.fit_predict min_cluster_size metric vectors
      group_and_chunk u records budget chars_per_token labels)
