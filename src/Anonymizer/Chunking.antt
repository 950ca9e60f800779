-- ===== src/Anonymizer/Chunking.antt =====
-- `_plan_chunks` and `_balanced_contiguous_split` of src/qfa/adapters/presidio_anonymizer.py: the texts of a batch, by their places, grouped
-- by language and split for the pool.
pub mod Coverage
pub mod Places
use qualitative_feedback_ana.Prelude.{
  ℕ, zero, suc, ◌+◌, ◌*◌, ◌/◌, ◌%◌, min, max, List, [], ◌∷◌, ◌++◌, map, flatten, length, take, drop,
  Text, text_eq, ltb, ◌==◌, if◌then◌else◌,
}

-- The loop over the parts, with the place the next part starts at.
unfoldable pub split_from : (left part start base extra : ℕ) (indices : List ℕ) → List (List ℕ)
split_from zero part start base extra indices = []
split_from (suc left) part start base extra indices =
    let size = base + (if ltb part extra then 1 else 0) in
    let rest = split_from left (suc part) (start + size) base extra indices in
    if size == 0 then rest else take size (drop start indices) ∷ rest

unfoldable pub balanced_contiguous_split : (indices : List ℕ) (n_parts : ℕ) → List (List ℕ)
unfolding split_from
balanced_contiguous_split indices n_parts =
    split_from n_parts 0 0 (length indices / n_parts) (length indices % n_parts) indices

-- `groups.setdefault(lang, []).append(index)`
unfoldable pub add_index : (lang : Text) (index : ℕ) → List (Text × List ℕ) → List (Text × List ℕ)
add_index lang index [] = (lang, index ∷ []) ∷ []
add_index lang index ((key, indices) ∷ groups) =
    if text_eq key lang
    then (key, indices ++ index ∷ []) ∷ groups
    else (key, indices) ∷ add_index lang index groups

unfoldable pub group_indices :
    (index : ℕ) (languages : List Text) → List (Text × List ℕ) → List (Text × List ℕ)
unfolding add_index
group_indices index [] groups = groups
group_indices index (lang ∷ languages) groups =
    group_indices (suc index) languages (add_index lang index groups)

-- `round(a / b)`: a half goes to the even number.
unfoldable pub round_quotient : (a b : ℕ) → ℕ
round_quotient a b =
    let whole = a / b in
    let twice = 2 * (a % b) in
    if ltb twice b then whole else if ltb b twice then suc whole else whole + whole % 2

unfoldable pub parts_of : (max_workers total : ℕ) (indices : List ℕ) → ℕ
unfolding round_quotient
parts_of max_workers total indices =
    max 1 (min (length indices) (round_quotient (max_workers * length indices) total))

unfoldable pub chunks_of : (max_workers total : ℕ) → Text × List ℕ → List (Text × List ℕ)
unfolding balanced_contiguous_split parts_of
chunks_of max_workers total (lang, indices) =
    map (λ group. (lang, group))
      (balanced_contiguous_split indices (parts_of max_workers total indices))

unfoldable pub plan_chunks : (languages : List Text) (max_workers : ℕ) → List (Text × List ℕ)
unfolding group_indices chunks_of
plan_chunks languages max_workers =
    flatten (map (chunks_of max_workers (length languages)) (group_indices 0 languages []))
