-- ===== src/Tests/ClusteringTests.antt =====
-- Clustering on three records, with a stand-in for HDBSCAN that labels each vector by its number.
use qualitative_feedback_ana.Prelude.{
  ℕ, ◌≡◌, refl, inr, some, List, [], ◌∷◌, map, codes, ascii, length, length-map, arith, keep,
  if◌then◌else◌, ◌==◌, ◌++◌, not, Text,
}
use qualitative_feedback_ana.Prelude.Int.{ℤ, pos, negsuc}
use qualitative_feedback_ana.Prelude.Sort.{sorted, IsSorted}
use qualitative_feedback_ana.Domain.Records.{record_id}
use qualitative_feedback_ana.Domain.Chunks.{Chunk}
use qualitative_feedback_ana.Domain.Errors.{ok}
use qualitative_feedback_ana.Clustering.Split.{balanced_contiguous_split}
use qualitative_feedback_ana.Clustering.Dates.{sort_by_date, key, iso_date_prefix}
use qualitative_feedback_ana.Clustering.Dates.Chronology.{
  is_dated, has_date, not_after, sort_by_date_lem,
}
use qualitative_feedback_ana.Clustering.Records.{Hdbscan, cluster_records}
use qualitative_feedback_ana.Clustering.Records.Coverage.{Covers, cluster_records-Covers}
use qualitative_feedback_ana.Tests.Data.{three}

abbrev pub label_of : ℕ → ℤ
label_of v = if v == 0 then negsuc 0 else pos v

pub labels_length :
    (matrix : List ℕ) (labels : List ℤ)
    → ok (map label_of matrix) ≡ ok labels
    → length labels ≡ length matrix
labels_length matrix labels e = cc (length-map label_of matrix)

abbrev pub by_number : Hdbscan
by_number = record {
  Vector = ℕ;
  fit_predict = λ _ _ matrix. ok (map label_of matrix);
  length-fit_predict = λ _ _ matrix labels e. labels_length matrix labels e;
}

split_five :
    balanced_contiguous_split {A = ℕ} (1 ∷ 2 ∷ 3 ∷ 4 ∷ 5 ∷ []) 2
    ≡ (1 ∷ 2 ∷ 3 ∷ []) ∷ (4 ∷ 5 ∷ []) ∷ []
unfolding balanced_contiguous_split
split_five = refl

sorted_ids : map record_id (sort_by_date ascii three) ≡ codes "F-1" ∷ codes "F-2" ∷ codes "M-1" ∷ []
unfolding sort_by_date sorted key iso_date_prefix
sorted_ids = refl

sort_by_date_lem_example :
    (sort_by_date ascii three
      ≡ keep (is_dated ascii) (sort_by_date ascii three)
        ++ keep (λ r. not (is_dated ascii r)) three)
    × IsSorted (not_after ascii) (keep (is_dated ascii) (sort_by_date ascii three))
    × ((date : Text)
        → keep (has_date ascii date) (sort_by_date ascii three) ≡ keep (has_date ascii date) three)
sort_by_date_lem_example = sort_by_date_lem ascii three

cluster_records-Covers_example :
    (chunks : List Chunk) × (cluster_records ascii by_number three
        (0 ∷ 1 ∷ 0 ∷ [])
        2
        100
        4
        (codes "euclidean")
        (some 3)
      ≡ ok chunks)
    × Covers three 3 4 chunks
cluster_records-Covers_example =
    cluster_records-Covers ascii by_number three (0 ∷ 1 ∷ 0 ∷ []) 2 100 4 (codes "euclidean")
      (some 3) (omega arith) (omega arith) (inr (negsuc 0 ∷ pos 1 ∷ negsuc 0 ∷ [], refl))
