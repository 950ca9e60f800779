-- ===== src/Tests/EmbeddingTests.antt =====
-- Three texts in batches of two for src/qfa/adapters/embedding.py, and an instance of the theorem on batches.
use qualitative_feedback_ana.Prelude.{
  ℕ, ◌+◌, ◌*◌, ◌/◌, max, ◌≡◌, refl, ap, false, none, List, [], ◌∷◌, ◌++◌, map, Text, codes, length,
}
use qualitative_feedback_ana.Domain.Errors.{ok, err, value_error}
use qualitative_feedback_ana.Embedding.{
  Numpy, pre_pooled, Encoding, zip_with, pool, normalised, mean_pool, OnnxEmbedder, construct,
  pooled, embed, family_of, effective_max_tokens,
}
use qualitative_feedback_ana.Embedding.Batching.{embed-map}

-- Natural numbers in place of floats.
abbrev whole : Numpy
whole = record {
  Float = ℕ;
  of_mask = λ m. m;
  zero_float = 0;
  plus = λ a b. a + b;
  times = λ a b. a * b;
  over = λ a b. a / b;
  at_least = λ a b. max a b;
  norm = λ row. 1;
  count_floor = 1;
  norm_floor = 1;
}

abbrev encode : Text → Encoding
encode text = (text, map (λ c. 1) text)

abbrev measure : Encoding → List ℕ
measure (ids, attention_mask) = length ids ∷ []

abbrev embedder : OnnxEmbedder whole
embedder = record {
  revision_hash = codes "8f2c";
  pooling = pre_pooled;
  query_prefix = codes "q: ";
  tokenizer = map encode;
  run = λ encoded. ok (map measure encoded);
  dense_dim = 1;
  batch_size = 2;
}

abbrev texts : List Text
texts = codes "water" ∷ codes "" ∷ codes "aid" ∷ []

pointwise :
    (prepared : List Text)
    → pooled whole embedder prepared ≡ ok (map (λ text. measure (encode text)) prepared)
unfolding pooled pool
pointwise prepared = ap ok (rows prepared)
  where
    rows :
        (ts : List Text)
        → zip_with (pool whole pre_pooled) (map measure (map encode ts)) (map encode ts)
          ≡ map (λ text. measure (encode text)) ts
    rows [] = refl
    rows (t ∷ ts) = ap (◌∷◌ (measure (encode t))) (rows ts)

one_number : (prepared : Text) → length (normalised whole (measure (encode prepared))) ≡ 1
unfolding normalised
one_number prepared = refl

embedded : embed whole embedder texts ≡ ok ((8 ∷ []) ∷ (3 ∷ []) ∷ (6 ∷ []) ∷ [])
unfolding embed
embedded = refl

-- The padding does not count.
masked :
    mean_pool whole ((6 ∷ 2 ∷ []) ∷ (2 ∷ 4 ∷ []) ∷ (9 ∷ 9 ∷ []) ∷ []) (1 ∷ 1 ∷ 0 ∷ []) ≡ 4 ∷ 3 ∷ []
unfolding mean_pool
masked = refl

unknown_family : family_of (codes "e6") ≡ err value_error
unfolding family_of
unknown_family = refl

natural_limit : effective_max_tokens none 512 ≡ 512
unfolding effective_max_tokens
natural_limit = refl

constructed : construct whole false [] embedder ≡ ok embedder
unfolding construct
constructed = refl

embed-map_example :
    embed whole embedder texts
    ≡ ok (map (λ text. normalised whole (measure (encode (codes "q: " ++ text)))) texts)
embed-map_example =
    embed-map whole embedder (λ text. measure (encode text)) pointwise one_number false [] texts
      constructed
