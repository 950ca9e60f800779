-- ===== src/Clustering/Split.antt =====
-- `_balanced_contiguous_split` of src/qfa/services/clustering.py: contiguous groups of near-equal
-- size, and what they are.
use native.Mathlib.Nat.{zero-add, suc-add}
use qualitative_feedback_ana.Prelude.{
  ℕ, zero, suc, ◌+◌, ◌-◌, ◌*◌, ◌/◌, ◌%◌, ◌≤◌, ◌<◌, min, ◌≡◌, refl, ap, List, [], ◌∷◌, ◌++◌, arith,
  length, take, drop, flatten, All, ltb, ◌==◌, if◌then◌else◌, length-take, length-drop, Bool-cases,
  inl, inr,
}

-- The indices that the loop has still to cover.
abbrev span : (base extra rounds part : ℕ) → ℕ
span base extra rounds part = rounds * base + (min extra (part + rounds) - min extra part)

abbrev pub part_size : (base extra part : ℕ) → ℕ
part_size base extra part = base + (if ltb part extra then 1 else 0)

module _ {ℓ} {A : Type ℓ} where
  -- The `for` loop: `rounds` parts are left, `part` is the next one and `start` its first index.
  split_parts : List A → ℕ → ℕ → ℕ → ℕ → ℕ → List (List A)
  split_parts records base extra zero part start = []
  split_parts records base extra (suc rounds) part start =
      let size = part_size base extra part in
      let rest = split_parts records base extra rounds (part + 1) (start + size) in
      if size == 0 then rest else take size (drop start records) ∷ rest

  -- `divmod` by zero raises in the source; every caller gives `n_parts` at least one.
  unfoldable pub balanced_contiguous_split : List A → ℕ → List (List A)
  unfolding split_parts
  balanced_contiguous_split records n_parts =
      split_parts records (length records / n_parts) (length records % n_parts) n_parts 0 0

  take-nil : (n : ℕ) → take {A = A} n [] ≡ []
  take-nil zero = refl
  take-nil (suc n) = refl

  drop-nil : (n : ℕ) → drop {A = A} n [] ≡ []
  drop-nil zero = refl
  drop-nil (suc n) = refl

  take-append-take : (a b : ℕ) (xs : List A) → take a xs ++ take b (drop a xs) ≡ take (a + b) xs
  take-append-take zero b xs = rw zero-add
  take-append-take (suc a) b [] = simp (take-nil, suc-add)
  take-append-take (suc a) b (x ∷ xs) = rw (suc-add, take-append-take a b xs)

  drop-drop : (s a : ℕ) (xs : List A) → drop a (drop s xs) ≡ drop (s + a) xs
  drop-drop zero a xs = rw zero-add
  drop-drop (suc s) a [] = simp (drop-nil, suc-add)
  drop-drop (suc s) a (x ∷ xs) = rw (suc-add, drop-drop s a xs)

  take-all : (n : ℕ) (xs : List A) → length xs ≤ n → take n xs ≡ xs
  take-all zero [] h = refl
  take-all zero (x ∷ xs) h = absurd (omega arith)
  take-all (suc n) [] h = refl
  take-all (suc n) (x ∷ xs) h = ap (◌∷◌ x) (take-all n xs (omega arith))

  -- One slice followed by the slices after it.
  slice_step :
      (records : List A) (size rest total start : ℕ)
      → size + rest ≡ total
      → take size (drop start records) ++ take rest (drop (start + size) records)
        ≡ take total (drop start records)
  slice_step records size rest total start e =
      rw (← drop-drop start size records, take-append-take, e)

  flatten-unless_empty :
      (size : ℕ) (xs : List A) (rest : List (List A))
      → flatten (if size == 0 then rest else take size xs ∷ rest) ≡ take size xs ++ flatten rest
  flatten-unless_empty zero xs rest = refl
  flatten-unless_empty (suc size) xs rest = ground arith

  flatten-split_parts :
      (records : List A) (base extra rounds part start : ℕ)
      → flatten (split_parts records base extra rounds part start)
        ≡ take (span base extra rounds part) (drop start records)
  unfolding split_parts
  flatten-split_parts records base extra zero part start =
      let e : span base extra 0 part ≡ 0 = omega arith in rw e
  flatten-split_parts records base extra (suc rounds) part start =
      let size = part_size base extra part in
      rw
        (
          flatten-unless_empty,
          flatten-split_parts records base extra rounds (part + 1) (start + size),
        )
        (slice_step records size (span base extra rounds (part + 1))
          (span base extra (suc rounds) part) start (ground arith))

  -- Every record stands in exactly one group, and the order is kept.
  pub flatten-balanced_contiguous_split :
      (records : List A) (n_parts : ℕ)
      → 0 < n_parts
      → flatten (balanced_contiguous_split records n_parts) ≡ records
  unfolding balanced_contiguous_split
  flatten-balanced_contiguous_split records n_parts h =
      rw
        (flatten-split_parts records (length records / n_parts) (length records % n_parts) n_parts 0
          0)
        (take-all _ records (grind arith))

  -- A group that is not empty, with `base` records or one more; one more only if `extra` is not 0.
  abbrev pub IsNear : (base extra : ℕ) → List A → Type 0
  IsNear base extra g =
      (0 < length g) × (base ≤ length g) × (length g ≤ base + (if extra == 0 then 0 else 1))

  length_slice :
      (records : List A) (size start : ℕ)
      → start + size ≤ length records
      → length (take size (drop start records)) ≡ size
  length_slice records size start h =
      omega (arith, length-take size (drop start records), length-drop start records)

  All-unless_empty :
      (base extra part : ℕ) (xs : List A) (rest : List (List A))
      → length (take (part_size base extra part) xs) ≡ part_size base extra part
      → All (IsNear base extra) rest
      → All (IsNear base extra) (
          if part_size base extra part == 0
          then rest
          else take (part_size base extra part) xs ∷ rest)
  All-unless_empty base extra part xs rest e h =
      elim (Bool-cases (part_size base extra part == 0)) [
        | inl none_left ↦ rw none_left h
        | inr some_left ↦ rw some_left (ground arith, h)
      ]

  split_parts-IsNear :
      (records : List A) (base extra rounds part start : ℕ)
      → start + span base extra rounds part ≤ length records
      → All (IsNear base extra) (split_parts records base extra rounds part start)
  unfolding split_parts
  split_parts-IsNear records base extra zero part start h = tt
  split_parts-IsNear records base extra (suc rounds) part start h =
      let size = part_size base extra part in
      All-unless_empty base extra part (drop start records) _
        (length_slice records size start (ground arith))
        (split_parts-IsNear records base extra rounds (part + 1) (start + size) (ground arith))

  -- The groups are not empty and differ in size by one record at most.
  pub balanced_contiguous_split-IsNear :
      (records : List A) (n_parts : ℕ)
      → 0 < n_parts
      → All
          (IsNear (length records / n_parts) (length records % n_parts))
          (balanced_contiguous_split records n_parts)
  unfolding balanced_contiguous_split
  balanced_contiguous_split-IsNear records n_parts h =
      split_parts-IsNear records _ _ n_parts 0 0 (grind arith)

  -- Cutting into at least one part keeps the records and their order, and gives groups that are not
  -- empty and hold the quotient of the sizes, or one record more if there is a remainder.
  balanced_contiguous_split-IsPartition :
      (records : List A) (n_parts : ℕ)
      → 0 < n_parts
      → (flatten (balanced_contiguous_split records n_parts) ≡ records)
        × All
            (IsNear (length records / n_parts) (length records % n_parts))
            (balanced_contiguous_split records n_parts)
  balanced_contiguous_split-IsPartition records n_parts h = (
    flatten-balanced_contiguous_split records n_parts h,
    balanced_contiguous_split-IsNear records n_parts h,
  )
