-- ===== src/Anonymizer/Passes/Pointwise.antt =====
-- `_run_pass` and `anonymize_batch` of src/qfa/adapters/presidio_anonymizer.py, against one analysis of each text by itself.
use qualitative_feedback_ana.Prelude.{
  ℕ, zero, suc, ◌<◌, ◌≡◌, ◌⊎◌, inl, inr, refl, sym, ◌∙◌, ap, Option, some, List, [], ◌∷◌, map,
  length, replicate, get_elem?, Text, All, Among, arith,
}
use qualitative_feedback_ana.Anonymizer.Spans.{Span}
use qualitative_feedback_ana.Anonymizer.Chunking.{plan_chunks}
use qualitative_feedback_ana.Anonymizer.Chunking.Places.{
  Labelled, IsIn, plan_chunks-Labelled, plan_chunks-IsIn,
}
use qualitative_feedback_ana.Anonymizer.Passes.{
  Engines, PoolSettings, get_each, write, scatter, analyze_chunk, scatter_chunks, run_pass,
}

module _ {A : Type 0} where
  length-replicate : (n : ℕ) (a : A) → length (replicate n a) ≡ n
  length-replicate zero a = refl
  length-replicate (suc n) a = ap suc (length-replicate n a)

  same_elements :
      (xs ys : List A)
      → length xs ≡ length ys
      → ((j : ℕ) → j < length ys → get_elem? xs j ≡ get_elem? ys j)
      → xs ≡ ys
  same_elements [] [] e h = refl
  same_elements [] (y ∷ ys) e h = ground arith
  same_elements (x ∷ xs) [] e h = ground arith
  same_elements (x ∷ xs) (y ∷ ys) e h =
      let first : some x ≡ some y = h 0 (omega arith) in
      let rest = same_elements xs ys (omega arith) (λ j lt. h (suc j) (omega arith)) in cc

  -- What is written at the places `indices` of `before`, where everything written is what `target` has there.
  abbrev Filled : (target : List A) (indices : List ℕ) (before after : List A) → Type 0
  Filled target indices before after =
      (length after ≡ length target)
      × ((j : ℕ)
          → Among j indices ⊎ (get_elem? before j ≡ get_elem? target j)
          → get_elem? after j ≡ get_elem? target j)

  write-Filled :
      (target before : List A) (i : ℕ) (a : A)
      → length before ≡ length target
      → get_elem? target i ≡ some a
      → (after : List A) × (write i a before ≡ some after) × Filled target (i ∷ []) before after
  write-Filled [] before i a len e = cc
  write-Filled (t ∷ target) [] i a len e = ground arith
  write-Filled (t ∷ target) (b ∷ before) zero a len e = (a ∷ before, refl, (omega arith, agree))
    where
      agree :
          (j : ℕ)
          → Among j (0 ∷ []) ⊎ (get_elem? (b ∷ before) j ≡ get_elem? (t ∷ target) j)
          → get_elem? (a ∷ before) j ≡ get_elem? (t ∷ target) j
      agree zero m = sym e
      agree (suc j) (inl (inl h)) = ground arith
      agree (suc j) (inl (inr h)) = absurd h
      agree (suc j) (inr h) = h
  write-Filled (t ∷ target) (b ∷ before) (suc i) a len e =
      let (after, done, (same_length, inside)) = write-Filled target before i a (omega arith) e in
      (b ∷ after, rw done refl, (omega arith, agree after inside))
    where
      agree :
          (after : List A)
          → ((j : ℕ)
              → Among j (i ∷ []) ⊎ (get_elem? before j ≡ get_elem? target j)
              → get_elem? after j ≡ get_elem? target j)
          → (j : ℕ) → Among j (suc i ∷ []) ⊎ (get_elem? (b ∷ before) j ≡ get_elem? (t ∷ target) j)
          → get_elem? (b ∷ after) j ≡ get_elem? (t ∷ target) j
      agree after inside zero (inl (inl h)) = ground arith
      agree after inside zero (inl (inr h)) = absurd h
      agree after inside zero (inr h) = h
      agree after inside (suc j) (inl (inl h)) =
          let same : j ≡ i = omega arith in inside j (inl (inl same))
      agree after inside (suc j) (inl (inr h)) = absurd h
      agree after inside (suc j) (inr h) = inside j (inr h)

  -- The results of a chunk are what `target` has at its places.
  abbrev AreAt : (target : List A) (indices : List ℕ) (results : List A) → Type 0
  AreAt target [] [] = Unit
  AreAt target [] (r ∷ results) = ⊥
  AreAt target (i ∷ indices) [] = ⊥
  AreAt target (i ∷ indices) (r ∷ results) =
      (get_elem? target i ≡ some r) × AreAt target indices results

  scatter-Filled :
      (target before : List A) (indices : List ℕ) (results : List A)
      → length before ≡ length target
      → AreAt target indices results
      → (after : List A) × (scatter indices results before ≡ some after)
        × Filled target indices before after
  unfolding scatter
  scatter-Filled target before [] [] len h =
      (before, refl, (len, λ j m. elim m [ inl n ↦ absurd n | inr e ↦ e ]))
  scatter-Filled target before [] (r ∷ results) len h = absurd h
  scatter-Filled target before (i ∷ indices) [] len h = absurd h
  scatter-Filled target before (i ∷ indices) (r ∷ results) len h =
      let (middle, wrote, (len_middle, agree)) = write-Filled target before i r len h.0 in
      let (after, rest, (len_after, agree_after)) =
        scatter-Filled target middle indices results len_middle h.1 in
      (after, rw wrote rest, (len_after, both middle after agree agree_after))
    where
      both :
          (middle after : List A)
          → ((j : ℕ)
              → Among j (i ∷ []) ⊎ (get_elem? before j ≡ get_elem? target j)
              → get_elem? middle j ≡ get_elem? target j)
          → ((j : ℕ)
              → Among j indices ⊎ (get_elem? middle j ≡ get_elem? target j)
              → get_elem? after j ≡ get_elem? target j)
          → (j : ℕ) → Among j (i ∷ indices) ⊎ (get_elem? before j ≡ get_elem? target j)
          → get_elem? after j ≡ get_elem? target j
      both middle after one rest j (inl (inl e)) = rest j (inr (one j (inl (inl e))))
      both middle after one rest j (inl (inr m)) = rest j (inl m)
      both middle after one rest j (inr e) = rest j (inr (one j (inr e)))

-- Each text analysed by itself, in its language.
abbrev pub one_by_one : (Text → Text → List Span) → (languages texts : List Text) → List (List Span)
one_by_one f [] texts = []
one_by_one f (lang ∷ languages) [] = []
one_by_one f (lang ∷ languages) (text ∷ texts) = f lang text ∷ one_by_one f languages texts

length-one_by_one :
    (f : Text → Text → List Span) (languages texts : List Text)
    → length texts ≡ length languages
    → length (one_by_one f languages texts) ≡ length texts
length-one_by_one f [] texts e = sym e
length-one_by_one f (lang ∷ languages) [] e = refl
length-one_by_one f (lang ∷ languages) (text ∷ texts) e =
    ap suc (length-one_by_one f languages texts (omega arith))

get_elem?-one_by_one :
    (f : Text → Text → List Span) (languages texts : List Text) (i : ℕ) (lang : Text)
    → length texts ≡ length languages
    → get_elem? languages i ≡ some lang
    → (text : Text) × (get_elem? texts i ≡ some text)
      × (get_elem? (one_by_one f languages texts) i ≡ some (f lang text))
get_elem?-one_by_one f [] texts i lang len e = cc
get_elem?-one_by_one f (l ∷ languages) [] i lang len e = ground arith
get_elem?-one_by_one f (l ∷ languages) (text ∷ texts) zero lang len e =
    let same : l ≡ lang = cc in (text, refl, ap (λ k. some (f k text)) same)
get_elem?-one_by_one f (l ∷ languages) (text ∷ texts) (suc i) lang len e =
    get_elem?-one_by_one f languages texts i lang (omega arith) e

chunk-AreAt :
    (f : Text → Text → List Span) (languages texts : List Text) (lang : Text) (indices : List ℕ)
    → length texts ≡ length languages
    → All (λ i. get_elem? languages i ≡ some lang) indices
    → (chunk_texts : List Text) × (get_each indices texts ≡ some chunk_texts)
      × AreAt (one_by_one f languages texts) indices (map (f lang) chunk_texts)
chunk-AreAt f languages texts lang [] len h = ([], refl, tt)
chunk-AreAt f languages texts lang (i ∷ indices) len h =
    let (text, there, at) = get_elem?-one_by_one f languages texts i lang len h.0 in
    let (rest, found, AreAt_rest) = chunk-AreAt f languages texts lang indices len h.1 in
    (text ∷ rest, rw (there, found) refl, (at, AreAt_rest))

-- The batch analyzer gives for each text what it gives for the text alone, whatever the batch size.
abbrev pub IsPointwise : Engines → (Option (List Text) → Text → Text → List Span) → Type 0
IsPointwise engines spans_of =
    (entities : Option (List Text)) (language : Text) (batch_size : ℕ) (texts : List Text)
    → engines.analyze_iterator entities language batch_size texts
      ≡ map (spans_of entities language) texts

module _ (engines : Engines) (settings : PoolSettings)
    (spans_of : Option (List Text) → Text → Text → List Span)
    (pointwise : IsPointwise engines spans_of) (texts languages : List Text)
    (entities : Option (List Text)) (len : length texts ≡ length languages) where
  scatter_chunks-Filled :
      (chunks : List (Text × List ℕ)) (before : List (List Span))
      → length before ≡ length (one_by_one (spans_of entities) languages texts)
      → Labelled (λ lang i. get_elem? languages i ≡ some lang) chunks
      → (after : List (List Span)) × (scatter_chunks engines settings texts entities chunks before
          ≡ some after)
        × (length after ≡ length (one_by_one (spans_of entities) languages texts))
        × ((j : ℕ)
            → IsIn j chunks
              ⊎ (get_elem? before j ≡ get_elem? (one_by_one (spans_of entities) languages texts) j)
            → get_elem? after j ≡ get_elem? (one_by_one (spans_of entities) languages texts) j)
  unfolding scatter_chunks analyze_chunk
  scatter_chunks-Filled [] before size h =
      (before, refl, size, λ j m. elim m [ inl n ↦ absurd n | inr e ↦ e ])
  scatter_chunks-Filled ((lang, indices) ∷ chunks) before size h =
      let target = one_by_one (spans_of entities) languages texts in
      let (chunk_texts, found, at) =
        chunk-AreAt (spans_of entities) languages texts lang indices len h.0 in
      let (middle, wrote, (size_middle, agree)) =
        scatter-Filled target before indices (map (spans_of entities lang) chunk_texts) size at in
      let (after, rest, size_after, agree_after) =
        scatter_chunks-Filled chunks middle size_middle h.1 in
      let results = pointwise entities lang settings.batch_size chunk_texts in
      (
        after,
        rw (found, results, wrote) rest,
        size_after,
        λ j m. elim m [
          | inl (inl here) ↦ agree_after j (inr (agree j (inl here)))
          | inl (inr later) ↦ agree_after j (inl later)
          | inr e ↦ agree_after j (inr (agree j (inr e)))
        ],
      )

  pub run_pass-one_by_one :
      run_pass engines settings texts languages entities
      ≡ some (one_by_one (spans_of entities) languages texts)
  unfolding run_pass
  run_pass-one_by_one =
      let target = one_by_one (spans_of entities) languages texts in
      let size = length-one_by_one (spans_of entities) languages texts len in
      let (after, done, size_after, agree) =
        scatter_chunks-Filled (plan_chunks languages settings.max_workers)
          (replicate (length texts) []) (length-replicate (length texts) [] ∙ sym size)
          (plan_chunks-Labelled languages settings.max_workers) in
      done
      ∙ ap some (
          same_elements after target size_after (λ j lt.
            agree j (inl (plan_chunks-IsIn languages settings.max_workers j (omega arith)))))
