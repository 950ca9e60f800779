-- ===== src/Anonymizer/Chunking/Coverage.antt =====
-- The plan of `_plan_chunks` in src/qfa/adapters/presidio_anonymizer.py, against the languages of the texts.
use qualitative_feedback_ana.Prelude.{
  ℕ, zero, suc, ◌+◌, ◌-◌, ◌*◌, ◌/◌, ◌%◌, ◌≤◌, ◌≡◌, refl, sym, ◌∙◌, ap, List, [], ◌∷◌, ◌++◌, flatten,
  length, take, drop, take-append-drop, ltb, ◌==◌, if◌then◌else◌, false, arith,
}
use native.Mathlib.Numerals.{unary_clauses}
use native.Mathlib.Nat.{mod-lt, div-add-mod}
use qualitative_feedback_ana.Anonymizer.Chunking.{split_from, balanced_contiguous_split}

drop-drop : (m n : ℕ) (xs : List ℕ) → drop (n + m) xs ≡ drop m (drop n xs)
drop-drop m zero xs = let same : 0 + m ≡ m = omega arith in ap (λ k. drop k xs) same
drop-drop zero (suc n) [] = simp unary_clauses refl
drop-drop (suc m) (suc n) [] = simp unary_clauses refl
drop-drop m (suc n) (x ∷ xs) =
    let moved : suc n + m ≡ suc (n + m) = omega arith in
    ap (λ k. drop k (x ∷ xs)) moved ∙ drop-drop m n xs

drop_all : (n : ℕ) (xs : List ℕ) → length xs - n ≡ 0 → drop n xs ≡ []
drop_all zero [] e = refl
drop_all zero (x ∷ xs) e = ground arith
drop_all (suc n) [] e = refl
drop_all (suc n) (x ∷ xs) e = drop_all n xs (omega arith)

-- A part that is not empty goes in front of those that follow it.
one_part :
    (size start : ℕ) (indices : List ℕ) (rest : List (List ℕ))
    → flatten rest ≡ drop (start + size) indices
    → flatten (if size == 0 then rest else take size (drop start indices) ∷ rest)
      ≡ drop start indices
one_part zero start indices rest e =
    let same : start + 0 ≡ start = omega arith in e ∙ ap (λ k. drop k indices) same
one_part (suc size) start indices rest e =
    let some_in : (suc size == 0) ≡ false = ground arith in
    rw some_in (
      ap (◌++◌ (take (suc size) (drop start indices))) (e ∙ drop-drop (suc size) start indices)
      ∙ take-append-drop (suc size) (drop start indices))

left_over :
    (l start left part base extra : ℕ)
    → l - start ≡ suc left * base + (extra - part)
    → l - (start + (base + (if ltb part extra then 1 else 0))) ≡ left * base + (extra - suc part)
left_over l start left part base extra e =
    let more : suc left * base ≡ base + left * base = omega arith in ground (arith, more, e)

flatten-split_from :
    (left part start base extra : ℕ) (indices : List ℕ)
    → extra ≤ part + left
    → length indices - start ≡ left * base + (extra - part)
    → flatten (split_from left part start base extra indices) ≡ drop start indices
unfolding split_from
flatten-split_from zero part start base extra indices le e =
    let none_left : 0 * base ≡ 0 = omega arith in sym (drop_all start indices (omega arith))
flatten-split_from (suc left) part start base extra indices le e =
    let size = base + (if ltb part extra then 1 else 0) in
    one_part size start indices (split_from left (suc part) (start + size) base extra indices) (
      flatten-split_from left (suc part) (start + size) base extra indices (omega arith)
        (left_over (length indices) start left part base extra e))

pub flatten-balanced_contiguous_split :
    (indices : List ℕ) (n : ℕ) → flatten (balanced_contiguous_split indices (suc n)) ≡ indices
unfolding balanced_contiguous_split
flatten-balanced_contiguous_split indices n =
    flatten-split_from (suc n) 0 0 (length indices / suc n) (length indices % suc n) indices
      (let lt = mod-lt (length indices) {m = suc n} (omega arith) in omega arith)
      (let whole = div-add-mod (length indices) (suc n) in omega arith)
