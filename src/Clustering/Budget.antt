-- ===== src/Clustering/Budget.antt =====
-- `_estimate_tokens`, `_split_to_budget` and `_budgeted_chunks` of src/qfa/services/clustering.py.
-- The quotient `total_chars / budget_chars` is taken exactly before it is rounded up.
use qualitative_feedback_ana.Prelude.{
  ℕ, zero, suc, ◌+◌, ◌-◌, ◌*◌, ◌/◌, ◌≤◌, ◌<◌, max, ◌≡◌, refl, ap, ◌⊎◌, inl, inr, Bool, true, false,
  ◌||◌, List, [], ◌∷◌, map, arith, length, flatten, all, All, All-map, Bool-cases, leb, leb→le,
  ◌==◌, if◌then◌else◌, append-nil,
}
use qualitative_feedback_ana.Prelude.Int.{ℤ}
use qualitative_feedback_ana.Domain.Records.{AnalysisRecord, record_text}
use qualitative_feedback_ana.Domain.Chunks.{Chunk, IsChunk}
use qualitative_feedback_ana.Clustering.Split.{
  balanced_contiguous_split, flatten-balanced_contiguous_split, balanced_contiguous_split-IsNear,
}

-- `sum(len(record_text(r)) for r in records)`
abbrev pub total_chars : List AnalysisRecord → ℕ
total_chars [] = 0
total_chars (r ∷ records) = length (record_text r) + total_chars records

unfoldable pub estimate_tokens : List AnalysisRecord → (chars_per_token : ℕ) → ℕ
estimate_tokens records chars_per_token = total_chars records / chars_per_token

abbrev fits : (budget_chars : ℕ) → List (List AnalysisRecord) → Bool
fits budget_chars groups = all (λ g. leb (total_chars g) budget_chars) groups

bound_step : (len n_parts bound : ℕ) → len ≤ n_parts + suc bound → len ≤ n_parts + 1 + bound
bound_step len n_parts bound h = omega arith

-- With as many parts as records a part has one record at most.
single_size :
    (len n q r size : ℕ)
    → 0 < n
    → len ≤ n
    → n * q + r ≡ len
    → size ≤ q + (if r == 0 then 0 else 1)
    → size ≤ 1
single_size len n zero r size pos h e k = ground arith
single_size len n (suc zero) r size pos h e k = ground arith
single_size len n (suc (suc q)) r size pos h e k = absurd (omega arith)

div-le : (t m c : ℕ) → 0 < c → t ≤ m * c → t / c ≤ m
div-le t m c pos h = grind arith

abbrev pub WithinBudget : (budget_chars : ℕ) → List AnalysisRecord → Type 0
WithinBudget budget_chars g = (total_chars g ≤ budget_chars) ⊎ (length g ≤ 1)

module _ (records : List AnalysisRecord) (budget_chars : ℕ) where
  -- The `while True` loop, by recursion on a proved bound for the parts that it can still add: the
  -- test `n_parts >= len(records)` ends it there.
  split_loop : (bound n_parts : ℕ) → length records ≤ n_parts + bound → List (List AnalysisRecord)
  split_loop zero n_parts h = balanced_contiguous_split records n_parts
  split_loop (suc bound) n_parts h =
      let groups = balanced_contiguous_split records n_parts in
      let more = split_loop bound (n_parts + 1) (bound_step (length records) n_parts bound h) in
      if fits budget_chars groups || leb (length records) n_parts then groups else more

  -- `max(1, ceil(total_chars / budget_chars)) if budget_chars else 1`
  abbrev first_parts : ℕ
  first_parts =
      if budget_chars == 0
      then 1
      else max 1 ((total_chars records + budget_chars - 1) / budget_chars)

  abbrev pub IsSplit : List (List AnalysisRecord) → Type 0
  IsSplit groups =
      (flatten groups ≡ records)
      × All (λ g. 0 < length g) groups
      × All (WithinBudget budget_chars) groups

  fits-All :
      (groups : List (List AnalysisRecord))
      → fits budget_chars groups ≡ true
      → All (WithinBudget budget_chars) groups
  fits-All [] h = tt
  fits-All (g ∷ groups) h = (ground arith, fits-All groups (ground arith))

  balanced-IsSplit :
      (n_parts : ℕ)
      → 0 < n_parts
      → All (WithinBudget budget_chars) (balanced_contiguous_split records n_parts)
      → IsSplit (balanced_contiguous_split records n_parts)
  balanced-IsSplit n_parts pos within = (
    flatten-balanced_contiguous_split records n_parts pos,
    All-map (λ g near. near.0) _ (balanced_contiguous_split-IsNear records n_parts pos),
    within,
  )

  singles-All :
      (n_parts : ℕ)
      → 0 < n_parts
      → length records ≤ n_parts
      → All (WithinBudget budget_chars) (balanced_contiguous_split records n_parts)
  singles-All n_parts pos h =
      All-map
        (λ g near.
          inr (single_size (length records) n_parts _ _ (length g) pos h (omega arith) near.2))
        _ (balanced_contiguous_split-IsNear records n_parts pos)

  exit-All :
      (n_parts : ℕ)
      → 0 < n_parts
      → (fits budget_chars (balanced_contiguous_split records n_parts)
          || leb (length records) n_parts)
        ≡ true
      → All (WithinBudget budget_chars) (balanced_contiguous_split records n_parts)
  exit-All n_parts pos e =
      elim (Bool-cases (fits budget_chars (balanced_contiguous_split records n_parts))) [
        | inl good ↦ fits-All _ good
        | inr bad ↦ singles-All n_parts pos (leb→le _ _ (rw bad at e))
      ]

  if-IsSplit :
      (b : Bool) (groups more : List (List AnalysisRecord))
      → (b ≡ true → IsSplit groups)
      → IsSplit more
      → IsSplit (if b then groups else more)
  if-IsSplit true groups more h k = h refl
  if-IsSplit false groups more h k = k

  split_loop-IsSplit :
      (bound n_parts : ℕ) (h : length records ≤ n_parts + bound)
      → 0 < n_parts
      → IsSplit (split_loop bound n_parts h)
  unfolding split_loop
  split_loop-IsSplit zero n_parts h pos =
      balanced-IsSplit n_parts pos (singles-All n_parts pos (omega arith))
  split_loop-IsSplit (suc bound) n_parts h pos =
      if-IsSplit _ _ _ (λ e. balanced-IsSplit n_parts pos (exit-All n_parts pos e))
        (split_loop-IsSplit bound (n_parts + 1) _ (omega arith))

  first_parts_pos : 0 < first_parts
  first_parts_pos = ground arith

  le_add : length records ≤ first_parts + length records
  le_add = omega arith

module _ (max_total_tokens chars_per_token : ℕ) where
  unfoldable pub split_to_budget : List AnalysisRecord → List (List AnalysisRecord)
  unfolding split_loop bound_step le_add
  split_to_budget records =
      let budget_chars = max_total_tokens * chars_per_token in
      split_loop records budget_chars (length records) (first_parts records budget_chars)
        (le_add records budget_chars)

  -- No record is lost or moved, no group is empty, and a group that is over the budget has a single
  -- record.
  split_to_budget-IsSplit :
      (records : List AnalysisRecord)
      → IsSplit records (max_total_tokens * chars_per_token) (split_to_budget records)
  unfolding split_to_budget
  split_to_budget-IsSplit records =
      split_loop-IsSplit records _ (length records) _ _ (first_parts_pos records _)

  -- What every chunk of a group satisfies: its records are not empty, and they are within the
  -- token budget unless there is only one.
  abbrev pub IsBudgeted : Chunk → Type 0
  IsBudgeted c =
      IsChunk c
      × ((estimate_tokens c.records chars_per_token ≤ max_total_tokens) ⊎ (length c.records ≤ 1))

  group-IsBudgeted :
      (g : List AnalysisRecord)
      → 0 < chars_per_token
      → WithinBudget (max_total_tokens * chars_per_token) g
      → (estimate_tokens g chars_per_token ≤ max_total_tokens) ⊎ (length g ≤ 1)
  unfolding estimate_tokens
  group-IsBudgeted g pos (inl h) = inl (div-le _ _ _ pos h)
  group-IsBudgeted g pos (inr h) = inr h

  module _ (label : ℤ) (is_uncategorised : Bool) where
    abbrev pub chunk_of : List AnalysisRecord → Chunk
    chunk_of records = record {
      label = label;
      is_uncategorised = is_uncategorised;
      records = records;
    }

    unfoldable pub budgeted_chunks : List AnalysisRecord → List Chunk
    unfolding estimate_tokens
    budgeted_chunks records =
        if leb (estimate_tokens records chars_per_token) max_total_tokens
        then chunk_of records ∷ []
        else map chunk_of (split_to_budget records)

    All-chunk_of :
        (groups : List (List AnalysisRecord))
        → 0 < chars_per_token
        → All (λ g. 0 < length g) groups
        → All (WithinBudget (max_total_tokens * chars_per_token)) groups
        → All IsBudgeted (map chunk_of groups)
    All-chunk_of [] pos h k = tt
    All-chunk_of (g ∷ groups) pos h k =
        ((h.0, group-IsBudgeted g pos k.0), All-chunk_of groups pos h.1 k.1)

    records-chunk_of :
        (groups : List (List AnalysisRecord)) → map (λ c. c.records) (map chunk_of groups) ≡ groups
    records-chunk_of [] = refl
    records-chunk_of (g ∷ groups) = ap (◌∷◌ g) (records-chunk_of groups)

    -- The chunks hold the records in order.
    pub flatten-budgeted_chunks :
        (records : List AnalysisRecord)
        → flatten (map (λ c. c.records) (budgeted_chunks records)) ≡ records
    unfolding budgeted_chunks
    flatten-budgeted_chunks records =
        elim (Bool-cases (leb (total_chars records / chars_per_token) max_total_tokens)) [
          | inl small ↦ rw (small, append-nil)
          | inr large ↦ rw (large, records-chunk_of) (split_to_budget-IsSplit records).0
        ]

    pub budgeted_chunks-IsBudgeted :
        (records : List AnalysisRecord)
        → 0 < chars_per_token
        → 0 < length records
        → All IsBudgeted (budgeted_chunks records)
    unfolding budgeted_chunks
    budgeted_chunks-IsBudgeted records pos some_record =
        elim (Bool-cases (leb (total_chars records / chars_per_token) max_total_tokens)) [
          | inl small ↦ rw small ((some_record, inl (leb→le _ _ small)), tt)
          | inr large ↦ rw large (
              All-chunk_of _ pos (split_to_budget-IsSplit records).1
                (split_to_budget-IsSplit records).2)
        ]
