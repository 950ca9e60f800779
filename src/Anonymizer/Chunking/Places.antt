-- ===== src/Anonymizer/Chunking/Places.antt =====
-- The places in the plan of `_plan_chunks` in src/qfa/adapters/presidio_anonymizer.py: what is at them, and that each is there.
use qualitative_feedback_ana.Prelude.{
  ℕ, zero, suc, ◌+◌, ◌<◌, ◌≡◌, ◌⊎◌, inl, inr, refl, sym, subst, ◌∙◌, ap, min, max, List, [], ◌∷◌,
  ◌++◌, map, flatten, length, Text, text_eq, text_eq-eq, Bool-cases, All, All-append, Among,
  Among-append_left, Among-append_right, arith, some, get_elem?,
}
use qualitative_feedback_ana.Anonymizer.Chunking.{
  add_index, group_indices, parts_of, chunks_of, plan_chunks, balanced_contiguous_split,
}
use qualitative_feedback_ana.Anonymizer.Chunking.Coverage.{flatten-balanced_contiguous_split}

-- `P` of every place and the language it is listed under.
abbrev pub Labelled : (P : Text → ℕ → Type 0) → List (Text × List ℕ) → Type 0
Labelled P chunks = All (λ chunk. All (P chunk.0) chunk.1) chunks

abbrev pub IsIn : ℕ → List (Text × List ℕ) → Type 0
IsIn i [] = ⊥
IsIn i (chunk ∷ chunks) = Among i chunk.1 ⊎ IsIn i chunks

IsIn-append_left : (i : ℕ) (xs ys : List (Text × List ℕ)) → IsIn i xs → IsIn i (xs ++ ys)
IsIn-append_left i [] ys m = absurd m
IsIn-append_left i (x ∷ xs) ys (inl m) = inl m
IsIn-append_left i (x ∷ xs) ys (inr m) = inr (IsIn-append_left i xs ys m)

IsIn-append_right : (i : ℕ) (xs ys : List (Text × List ℕ)) → IsIn i ys → IsIn i (xs ++ ys)
IsIn-append_right i [] ys m = m
IsIn-append_right i (x ∷ xs) ys m = inr (IsIn-append_right i xs ys m)

module _ (P : Text → ℕ → Type 0) where
  add_index-Labelled :
      (lang : Text) (index : ℕ) (groups : List (Text × List ℕ))
      → P lang index
      → Labelled P groups
      → Labelled P (add_index lang index groups)
  unfolding add_index
  add_index-Labelled lang index [] p h = ((p, tt), tt)
  add_index-Labelled lang index ((key, indices) ∷ groups) p h =
      elim (Bool-cases (text_eq key lang)) [
        | inl e ↦ rw e (
          All-append (P key) indices (index ∷ []) h.0
              (subst (λ l. P l index) (sym (text_eq-eq key lang e)) p, tt),
          h.1,
        )
        | inr e ↦ rw e (h.0, add_index-Labelled lang index groups p h.1)
      ]

  group_indices-Labelled :
      (index : ℕ) (languages : List Text) (groups : List (Text × List ℕ))
      → ((k : ℕ) (lang : Text) → get_elem? languages k ≡ some lang → P lang (index + k))
      → Labelled P groups
      → Labelled P (group_indices index languages groups)
  unfolding group_indices
  group_indices-Labelled index [] groups p h = h
  group_indices-Labelled index (lang ∷ languages) groups p h =
      let same : index + 0 ≡ index = omega arith in
      group_indices-Labelled (suc index) languages (add_index lang index groups)
        (λ k l e.
          let moved : index + suc k ≡ suc index + k = omega arith in
          subst (P l) moved (p (suc k) l e))
        (add_index-Labelled lang index groups (subst (P lang) same (p 0 lang refl)) h)

  parts-Labelled :
      (lang : Text) (parts : List (List ℕ))
      → All (P lang) (flatten parts)
      → Labelled P (map (λ group. (lang, group)) parts)
  parts-Labelled lang [] h = tt
  parts-Labelled lang (part ∷ parts) h =
      let (front, back) = All-append_split part (flatten parts) h in
      (front, parts-Labelled lang parts back)
    where
      All-append_split :
          (xs ys : List ℕ) → All (P lang) (xs ++ ys) → All (P lang) xs × All (P lang) ys
      All-append_split [] ys h = (tt, h)
      All-append_split (x ∷ xs) ys h =
          let (front, back) = All-append_split xs ys h.1 in ((h.0, front), back)

add_index-IsIn :
    (i : ℕ) (lang : Text) (index : ℕ) (groups : List (Text × List ℕ))
    → (i ≡ index) ⊎ IsIn i groups
    → IsIn i (add_index lang index groups)
unfolding add_index
add_index-IsIn i lang index [] (inl e) = inl (inl e)
add_index-IsIn i lang index [] (inr m) = absurd m
add_index-IsIn i lang index ((key, indices) ∷ groups) m = elim (Bool-cases (text_eq key lang)) [
  | inl e ↦ rw e (here m)
  | inr e ↦ rw e (later (add_index-IsIn i lang index groups) m)
]
  where
    here :
        (i ≡ index) ⊎ IsIn i ((key, indices) ∷ groups)
        → IsIn i ((key, indices ++ index ∷ []) ∷ groups)
    here (inl e) = inl (Among-append_right i indices (index ∷ []) (inl e))
    here (inr (inl m)) = inl (Among-append_left i indices (index ∷ []) m)
    here (inr (inr m)) = inr m

    later :
        ((i ≡ index) ⊎ IsIn i groups → IsIn i (add_index lang index groups))
        → (i ≡ index) ⊎ IsIn i ((key, indices) ∷ groups)
        → IsIn i ((key, indices) ∷ add_index lang index groups)
    later again (inl e) = inr (again (inl e))
    later again (inr (inl m)) = inl m
    later again (inr (inr m)) = inr (again (inr m))

group_indices_keeps :
    (i index : ℕ) (languages : List Text) (groups : List (Text × List ℕ))
    → IsIn i groups
    → IsIn i (group_indices index languages groups)
unfolding group_indices
group_indices_keeps i index [] groups m = m
group_indices_keeps i index (lang ∷ languages) groups m =
    group_indices_keeps i (suc index) languages (add_index lang index groups)
      (add_index-IsIn i lang index groups (inr m))

group_indices-IsIn :
    (k index : ℕ) (languages : List Text) (groups : List (Text × List ℕ))
    → k < length languages
    → IsIn (index + k) (group_indices index languages groups)
unfolding group_indices
group_indices-IsIn k index [] groups lt = elim lt [ ]
group_indices-IsIn zero index (lang ∷ languages) groups lt =
    group_indices_keeps (index + 0) (suc index) languages (add_index lang index groups)
      (add_index-IsIn (index + 0) lang index groups (inl (omega arith)))
group_indices-IsIn (suc k) index (lang ∷ languages) groups lt =
    let moved : suc index + k ≡ index + suc k = omega arith in
    subst (λ i. IsIn i (group_indices (suc index) languages (add_index lang index groups))) moved
      (group_indices-IsIn k (suc index) languages (add_index lang index groups) (omega arith))

parts-IsIn :
    (i : ℕ) (lang : Text) (parts : List (List ℕ))
    → Among i (flatten parts)
    → IsIn i (map (λ group. (lang, group)) parts)
parts-IsIn i lang [] m = absurd m
parts-IsIn i lang (part ∷ parts) m = elim (parted part m) [
  | inl here ↦ inl here
  | inr later ↦ inr (parts-IsIn i lang parts later)
]
  where
    parted : (xs : List ℕ) → Among i (xs ++ flatten parts) → Among i xs ⊎ Among i (flatten parts)
    parted [] m = inr m
    parted (x ∷ xs) (inl e) = inl (inl e)
    parted (x ∷ xs) (inr m) = elim (parted xs m) [
      | inl here ↦ inl (inr here)
      | inr later ↦ inr later
    ]

-- At least one part, and the parts are the places.
flatten-parts :
    (workers total : ℕ) (indices : List ℕ)
    → flatten (balanced_contiguous_split indices (parts_of workers total indices)) ≡ indices
unfolding parts_of
flatten-parts workers total indices = at_least_one (min (length indices) _)
  where
    at_least_one : (n : ℕ) → flatten (balanced_contiguous_split indices (max 1 n)) ≡ indices
    at_least_one zero = flatten-balanced_contiguous_split indices 0
    at_least_one (suc n) =
        let most : max 1 (suc n) ≡ suc n = omega arith in
        ap (λ parts. flatten (balanced_contiguous_split indices parts)) most
        ∙ flatten-balanced_contiguous_split indices n

chunks-Labelled :
    (P : Text → ℕ → Type 0) (workers total : ℕ) (groups : List (Text × List ℕ))
    → Labelled P groups
    → Labelled P (flatten (map (chunks_of workers total) groups))
unfolding chunks_of
chunks-Labelled P workers total [] h = tt
chunks-Labelled P workers total ((lang, indices) ∷ groups) h =
    All-append (λ chunk. All (P chunk.0) chunk.1) _ _
      (parts-Labelled P lang (balanced_contiguous_split indices (parts_of workers total indices))
        (subst (All (P lang)) (sym (flatten-parts workers total indices)) h.0))
      (chunks-Labelled P workers total groups h.1)

chunks-IsIn :
    (i workers total : ℕ) (groups : List (Text × List ℕ))
    → IsIn i groups
    → IsIn i (flatten (map (chunks_of workers total) groups))
unfolding chunks_of
chunks-IsIn i workers total [] m = absurd m
chunks-IsIn i workers total ((lang, indices) ∷ groups) (inl m) = IsIn-append_left i _ _ (
    parts-IsIn i lang (balanced_contiguous_split indices (parts_of workers total indices))
      (subst (Among i) (sym (flatten-parts workers total indices)) m))
chunks-IsIn i workers total ((lang, indices) ∷ groups) (inr m) =
    IsIn-append_right i _ _ (chunks-IsIn i workers total groups m)

-- Every place of a chunk has a text in the chunk's language.
pub plan_chunks-Labelled :
    (languages : List Text) (workers : ℕ)
    → Labelled (λ lang i. get_elem? languages i ≡ some lang) (plan_chunks languages workers)
unfolding plan_chunks
plan_chunks-Labelled languages workers =
    let At = λ (lang : Text) (i : ℕ). get_elem? languages i ≡ some lang in
    chunks-Labelled At workers (length languages) (group_indices 0 languages []) (
      group_indices-Labelled At 0 languages []
        (λ k lang e. let same : k ≡ 0 + k = omega arith in subst (At lang) same e) tt)

-- Every text has its place in a chunk.
pub plan_chunks-IsIn :
    (languages : List Text) (workers i : ℕ)
    → i < length languages
    → IsIn i (plan_chunks languages workers)
unfolding plan_chunks
plan_chunks-IsIn languages workers i lt =
    let same : 0 + i ≡ i = omega arith in
    chunks-IsIn i workers (length languages) (group_indices 0 languages []) (
      subst (λ j. IsIn j (group_indices 0 languages [])) same
        (group_indices-IsIn i 0 languages [] lt))
