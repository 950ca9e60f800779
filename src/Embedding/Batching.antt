-- ===== src/Embedding/Batching.antt =====
-- What the batches of src/qfa/adapters/embedding.py have to do with the vectors.
use qualitative_feedback_ana.Prelude.{
  ℕ, zero, suc, ◌≡◌, ◌≤◌, refl, sym, ◌∙◌, ap, subst, Bool, true, false, List, [], ◌∷◌, ◌++◌, map,
  map-append, Text, text_eq, ltb, length, length-drop, length-take, take, drop, take-append-drop,
  ◌==◌, ==_iff, Bool-cases, inl, inr, arith,
}
use qualitative_feedback_ana.Domain.Errors.{ok, ok-injective}
use qualitative_feedback_ana.Embedding.{
  Numpy, OnnxEmbedder, construct, normalised, pooled, embed_batch, embed_from, embed,
}

module _ (np : Numpy) where
  -- An embedder that was constructed has batches with a text.
  construct-batch_size :
      (trust_remote_code : Bool) (custom_op_libraries : List Text) (e : OnnxEmbedder np)
      {built : OnnxEmbedder np}
      → construct np trust_remote_code custom_op_libraries e ≡ ok built
      → 1 ≤ built.batch_size
  unfolding construct
  construct-batch_size true custom_op_libraries e h = cc h
  construct-batch_size false (library ∷ custom_op_libraries) e h = cc h
  construct-batch_size false [] e h = elim (Bool-cases (text_eq e.revision_hash [])) [
    | inl unpinned ↦ cc (rw unpinned at h)
    | inr pinned ↦ elim (Bool-cases (ltb e.batch_size 1)) [
      | inl small ↦ cc (rw (pinned, small) at h)
      | inr large ↦
          let enough : 1 ≤ e.batch_size = ground arith in
          subst (λ (b : OnnxEmbedder np). 1 ≤ b.batch_size) (ok-injective (rw (pinned, large) at h))
            enough
    ]
  ]

  module _ (e : OnnxEmbedder np) (alone : Text → List np.Float)
      (pointwise : (prepared : List Text) → pooled np e prepared ≡ ok (map alone prepared))
      (wide : (prepared : Text) → length (normalised np (alone prepared)) ≡ e.dense_dim) where
    abbrev vector_of : Text → List np.Float
    vector_of text = normalised np (alone (e.query_prefix ++ text))

    map_twice :
        (batch : List Text)
        → map (normalised np) (map alone (map (◌++◌ e.query_prefix) batch)) ≡ map vector_of batch
    map_twice [] = refl
    map_twice (text ∷ batch) = ap (◌∷◌ (vector_of text)) (map_twice batch)

    embed_batch-map :
        (batch : List Text) → 1 ≤ length batch → embed_batch np e batch ≡ ok (map vector_of batch)
    unfolding embed_batch
    embed_batch-map [] h = absurd (omega arith)
    embed_batch-map (text ∷ batch) h =
        let is_wide : (length (vector_of text) == e.dense_dim) ≡ true =
          (==_iff _ e.dense_dim).1 (wide (e.query_prefix ++ text)) in
        rw (pointwise (map (◌++◌ e.query_prefix) (text ∷ batch)))
          (rw is_wide (ap ok (map_twice (text ∷ batch))))

    embed_from-map :
        (fuel : ℕ) (texts : List Text)
        → 1 ≤ e.batch_size
        → length texts ≤ fuel
        → embed_from np e fuel texts ≡ ok (map vector_of texts)
    unfolding embed_from
    embed_from-map fuel [] n h = refl
    embed_from-map zero (text ∷ texts) n h = absurd (omega arith)
    embed_from-map (suc fuel) (text ∷ texts) n h =
        let first =
          embed_batch-map (take e.batch_size (text ∷ texts))
            (omega (arith, length-take e.batch_size (text ∷ texts))) in
        let others =
          embed_from-map fuel (drop e.batch_size (text ∷ texts)) n
            (omega (arith, length-drop e.batch_size (text ∷ texts))) in
        rw first (
          rw others (
            ap ok (
              sym (
                map-append vector_of (take e.batch_size (text ∷ texts))
                  (drop e.batch_size (text ∷ texts)))
              ∙ ap (map vector_of) (take-append-drop e.batch_size (text ∷ texts)))))

    -- If the model gives for each text of a batch what it gives for the text alone, with as many numbers as are expected, then an embedder that
    -- was constructed gives one vector for each text, in their order, and the size of the batches makes no difference.
    pub embed-map :
        (trust_remote_code : Bool) (custom_op_libraries : List Text) (texts : List Text)
        → construct np trust_remote_code custom_op_libraries e ≡ ok e
        → embed np e texts ≡ ok (map vector_of texts)
    unfolding embed
    embed-map trust_remote_code custom_op_libraries texts built =
        embed_from-map (length texts) texts
          (construct-batch_size trust_remote_code custom_op_libraries e built) (omega arith)
