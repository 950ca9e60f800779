-- ===== src/Clustering/Records/Coverage.antt =====
-- The two invariants that the header of src/qfa/services/clustering.py promises.
use mathlib.Core.List.Perm
use mathlib.Core.List.{Perm, Permᴰ, filter_map, filter_map-append}
use mathlib.Core.Logic.{∥∥₁_elim}
use qualitative_feedback_ana.Prelude.{
  ℕ, ◌<◌, ◌≡◌, refl, sym, ◌∙◌, Bool, true, false, ◌&&◌, ◌||◌, Option, List, [], ◌∷◌, arith, Text,
  text_eq, text_eq_refl, Unicode, length, any, all, All, ltb, ◌==◌, Bool-cases, inl, inr, ◌⊎◌,
  ==_iff, ◌≢◌, map-append, flatten-append, All-append,
}
use qualitative_feedback_ana.Prelude.Int.{ℤ, negsuc, eqℤ}
use qualitative_feedback_ana.Domain.Records.{AnalysisRecord, record_id}
use qualitative_feedback_ana.Domain.Chunks.{Chunk}
use qualitative_feedback_ana.Domain.Errors.{Result, ok, err, value_error}
use qualitative_feedback_ana.Clustering.Dates.{
  sort_by_date, sort_by_date-perm, length-sort_by_date_pos,
}
use qualitative_feedback_ana.Clustering.Budget.{
  budgeted_chunks, flatten-budgeted_chunks, IsBudgeted, budgeted_chunks-IsBudgeted,
}
use qualitative_feedback_ana.Clustering.Labels.{
  Groups, by_label_sorted, pick, indices_of, pick-by_label_sorted-perm, All-pick_pos,
}
use qualitative_feedback_ana.Clustering.Records.{
  Hdbscan, same_set, chunk_records, split_budget, chunks_from, check_coverage, group_and_chunk,
  cluster_records,
}

module _ {ℓ} {A : Type ℓ} (p : A → Bool) where
  any-permᴰ : {xs ys : List A} → Permᴰ xs ys → any p xs ≡ any p ys
  any-permᴰ Permᴰ.nil = refl
  any-permᴰ (Permᴰ.cons e q) = rw (e, any-permᴰ q)
  any-permᴰ (Permᴰ.swap {a = a} {b = b} {l = l} e f) = rw (← e, ← f) (or_swap (p a) (p b) (any p l))
    where
      or_swap : (x y z : Bool) → (x || (y || z)) ≡ (y || (x || z))
      or_swap x y z = ground arith
  any-permᴰ (Permᴰ.trans q r) = any-permᴰ q ∙ any-permᴰ r

  all-permᴰ : {xs ys : List A} → Permᴰ xs ys → all p xs ≡ all p ys
  all-permᴰ Permᴰ.nil = refl
  all-permᴰ (Permᴰ.cons e q) = rw (e, all-permᴰ q)
  all-permᴰ (Permᴰ.swap {a = a} {b = b} {l = l} e f) =
      rw (← e, ← f) (and_swap (p a) (p b) (all p l))
    where
      and_swap : (x y z : Bool) → (x && (y && z)) ≡ (y && (x && z))
      and_swap x y z = ground arith
  all-permᴰ (Permᴰ.trans q r) = all-permᴰ q ∙ all-permᴰ r

Bool_set : IsSet Bool
Bool_set = hlevel

any-perm {ℓ} : {A : Type ℓ} (p : A → Bool) {xs ys : List A} → Perm xs ys → any p xs ≡ any p ys
any-perm p h = ∥∥₁_elim h (Bool_set _ _) (any-permᴰ p)

all-perm {ℓ} : {A : Type ℓ} (p : A → Bool) {xs ys : List A} → Perm xs ys → all p xs ≡ all p ys
all-perm p h = ∥∥₁_elim h (Bool_set _ _) (all-permᴰ p)

all-any :
    (zs ys : List Text)
    → ((x : Text) → any (text_eq x) ys ≡ true → any (text_eq x) zs ≡ true)
    → all (λ x. any (text_eq x) zs) ys ≡ true
all-any zs [] sub = refl
all-any zs (y ∷ ys) sub =
    let here : any (text_eq y) zs ≡ true = sub y (ground (arith, text_eq_refl y)) in
    rw here (all-any zs ys (λ x h. sub x (or_right (text_eq x y) _ h)))
  where
    or_right : (a b : Bool) → b ≡ true → (a || b) ≡ true
    or_right a b h = ground arith

same_set-perm : {xs ys : List Text} → Perm xs ys → same_set xs ys ≡ true
same_set-perm {xs} {ys} h =
    let left = all-perm (λ x. any (text_eq x) ys) h ∙ all-any ys ys (λ x k. k) in
    let right = all-perm (λ y. any (text_eq y) xs) (Perm.symm h) ∙ all-any xs xs (λ x k. k) in
    rw left right

module _ (u : Unicode) (records : List AnalysisRecord) (budget chars_per_token : ℕ) where
  abbrev GroupsHave : Groups → Type 0
  GroupsHave groups = All (λ g. 0 < length (pick records g.1)) groups

  chunks_from-perm :
      (groups : Groups)
      → Perm
          (chunk_records (chunks_from u records budget chars_per_token groups))
          (pick records (indices_of groups))
  unfolding chunks_from filter_map
  chunks_from-perm [] = Perm.rfl
  chunks_from-perm ((label, indices) ∷ groups) =
      rw
        (
          map-append (λ c. c.records) (budgeted_chunks budget chars_per_token label _ _) _,
          flatten-append,
          flatten-budgeted_chunks,
          filter_map-append,
        )
        (Perm.append (sort_by_date-perm u (pick records indices)) (chunks_from-perm groups))

  chunks_from-IsBudgeted :
      (groups : Groups)
      → 0 < chars_per_token
      → GroupsHave groups
      → All
          (IsBudgeted budget chars_per_token)
          (chunks_from u records budget chars_per_token groups)
  unfolding chunks_from
  chunks_from-IsBudgeted [] pos h = tt
  chunks_from-IsBudgeted ((label, indices) ∷ groups) pos h =
      All-append _ (budgeted_chunks budget chars_per_token label (eqℤ label (negsuc 0)) _) _
        (budgeted_chunks-IsBudgeted budget chars_per_token label _ _ pos
          (length-sort_by_date_pos u (pick records indices) h.0))
        (chunks_from-IsBudgeted groups pos h.1)

nil_of_length : (xs : List AnalysisRecord) → (length xs == 0) ≡ true → xs ≡ []
nil_of_length [] h = refl
nil_of_length (x ∷ xs) h = absurd (ground arith)

ltb-false_of_eq : (m n : ℕ) → n ≡ m → ltb m n ≡ false
ltb-false_of_eq m n e = ground arith

-- What a caller of `cluster_records` gets: the records, each once, in chunks within the budget.
abbrev pub Covers :
    (records : List AnalysisRecord) (budget chars_per_token : ℕ) → List Chunk → Type 0
Covers records budget chars_per_token chunks =
    Perm (chunk_records chunks) records × All (IsBudgeted budget chars_per_token) chunks

module _ (u : Unicode) (records : List AnalysisRecord) (budget chars_per_token : ℕ)
    (pos : 0 < chars_per_token) where
  group_and_chunk-Covers :
      (labels : List ℤ)
      → length labels ≡ length records
      → (chunks : List Chunk) × (group_and_chunk u records budget chars_per_token labels
          ≡ ok chunks)
        × Covers records budget chars_per_token chunks
  unfolding group_and_chunk
  group_and_chunk-Covers labels e =
      let chunks = chunks_from u records budget chars_per_token (by_label_sorted labels) in
      let covered : Perm (chunk_records chunks) records =
        Perm.trans (chunks_from-perm u records budget chars_per_token (by_label_sorted labels))
          (pick-by_label_sorted-perm records labels e) in
      let same = same_set-perm (Perm.map record_id covered) in
      let in_range = ltb-false_of_eq (length records) (length labels) e in
      (
        chunks,
        rw (in_range, check_coverage, same),
        (
          covered,
          chunks_from-IsBudgeted u records budget chars_per_token _ pos
              (All-pick_pos records labels e),
        ),
      )

  one_group-Covers :
      (label : ℤ) (is_uncategorised : Bool)
      → 0 < length records
      → Covers records budget chars_per_token
          (budgeted_chunks budget chars_per_token label is_uncategorised (sort_by_date u records))
  one_group-Covers label is_uncategorised some_record = (
    rw flatten-budgeted_chunks (sort_by_date-perm u records),
    budgeted_chunks-IsBudgeted budget chars_per_token label is_uncategorised _ pos
        (length-sort_by_date_pos u records some_record),
  )

module _ (u : Unicode) (h : Hdbscan) (records : List AnalysisRecord) (vectors : List h.Vector)
    (min_cluster_size max_total_tokens chars_per_token : ℕ) (metric : Text)
    (target_chunk_tokens : Option ℕ) where
  abbrev run : Result (List Chunk)
  run =
      cluster_records u h records vectors min_cluster_size max_total_tokens chars_per_token metric
        target_chunk_tokens

  abbrev budget : ℕ
  budget = split_budget target_chunk_tokens max_total_tokens

  -- With a vector for each record, and labels where HDBSCAN is called, the clustering returns: the
  -- coverage check never fails, the chunks hold the records, each once, no chunk is empty, and a
  -- chunk of two records or more is within both the granularity target and the token ceiling.
  pub cluster_records-Covers :
      0 < chars_per_token
      → length records ≡ length vectors
      → ((length records < min_cluster_size)
          ⊎ ((labels : List ℤ) × (h.fit_predict min_cluster_size metric vectors ≡ ok labels)))
      → (chunks : List Chunk) × (run ≡ ok chunks) × Covers records budget chars_per_token chunks
  unfolding cluster_records
  cluster_records-Covers pos e fitted =
      let same : (length records == length vectors) ≡ true = (==_iff _ _).1 e in
      elim (Bool-cases (length records == 0)) [
        | inl empty ↦ ([], rw (same, empty), (rw (nil_of_length records empty) Perm.rfl, tt))
        | inr nonempty ↦ elim (Bool-cases (ltb (length records) min_cluster_size)) [
          | inl small ↦ (
            budgeted_chunks budget chars_per_token (negsuc 0) true (sort_by_date u records),
            rw (same, nonempty, small),
            one_group-Covers u records budget chars_per_token pos (negsuc 0) true (ground arith),
          )
          | inr large ↦ elim fitted [
            | inl below ↦ absurd (ground arith)
            | inr (labels, fit) ↦
                let (chunks, returns, covers) =
                  group_and_chunk-Covers u records budget chars_per_token pos labels
                    (h.length-fit_predict _ _ _ labels fit ∙ sym e) in
                (chunks, rw (same, nonempty, large, fit) returns, covers)
          ]
        ]
      ]

  -- Without a vector for each record the clustering refuses, whatever else it is given.
  pub cluster_records-mismatch : length records ≢ length vectors → run ≡ err value_error
  unfolding cluster_records
  cluster_records-mismatch ne = ground arith
