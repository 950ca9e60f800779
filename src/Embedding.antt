-- ===== src/Embedding.antt =====
-- src/qfa/adapters/embedding.py: the embedder, batch by batch. The tokenizer, the session of the model and the arithmetic of numpy are parameters; an
-- array is a list of rows. The session gives what its family gives: a vector for each text, or one for each token.
pub mod Batching
use qualitative_feedback_ana.Prelude.{
  ℕ, zero, suc, Bool, true, false, not, Option, none, some, List, [], ◌∷◌, ◌++◌, map, Text, codes,
  text_eq, ltb, length, take, drop, ◌==◌, if◌then◌else◌,
}
use qualitative_feedback_ana.Domain.Errors.{Result, ok, err, ◌>>=◌, value_error}

-- `norm` is that of a row, and the two floors are 1e-9 and 1e-12.
pub record Numpy : Type 1 where
  pub Float : Type 0
  pub of_mask : ℕ → Float
  pub zero_float : Float
  pub plus : Float → Float → Float
  pub times : Float → Float → Float
  pub over : Float → Float → Float
  pub at_least : (floor : Float) → Float → Float
  pub norm : List Float → Float
  pub count_floor : Float
  pub norm_floor : Float

pub data Pooling : Type 0 where
  pre_pooled mean : Pooling

-- What the session gives for one text.
abbrev pub Output : Numpy → Pooling → Type 0
Output np pre_pooled = List np.Float
Output np mean = List (List np.Float)

-- The token ids and the attention mask of a text.
abbrev pub Encoding : Type 0
Encoding = List ℕ × List ℕ

abbrev pub zip_with : {A B C : Type 0} → (A → B → C) → List A → List B → List C
zip_with f (x ∷ xs) (y ∷ ys) = f x y ∷ zip_with f xs ys
zip_with f _ _ = []

module _ (np : Numpy) where
  sum_rows : List (List np.Float) → List np.Float
  sum_rows [] = []
  sum_rows (row ∷ []) = row
  sum_rows (row ∷ row' ∷ rows) = zip_with np.plus row (sum_rows (row' ∷ rows))

  sum_floats : List np.Float → np.Float
  sum_floats [] = np.zero_float
  sum_floats (x ∷ xs) = np.plus x (sum_floats xs)

  -- One row of `_mean_pool`.
  unfoldable pub mean_pool :
      (last_hidden : List (List np.Float)) (attention_mask : List ℕ) → List np.Float
  unfolding sum_rows sum_floats
  mean_pool last_hidden attention_mask =
      let counts = np.at_least np.count_floor (sum_floats (map np.of_mask attention_mask)) in
      map (λ x. np.over x counts)
        (sum_rows
          (zip_with (λ row m. map (λ x. np.times x (np.of_mask m)) row) last_hidden attention_mask))

  unfoldable pub pool : (pooling : Pooling) → Output np pooling → Encoding → List np.Float
  unfolding mean_pool
  pool pre_pooled row encoding = row
  pool mean tokens encoding = mean_pool tokens encoding.1

  unfoldable pub normalised : List np.Float → List np.Float
  normalised row =
      let divisor = np.at_least np.norm_floor (np.norm row) in map (λ x. np.over x divisor) row

  pub record OnnxEmbedder : Type 0 where
    pub revision_hash : Text
    pub pooling : Pooling
    pub query_prefix : Text
    pub tokenizer : List Text → List Encoding
    pub run : List Encoding → Result (List (Output np pooling))
    pub dense_dim : ℕ
    pub batch_size : ℕ

  -- The constructor. A pooling of another name does not exist here.
  unfoldable pub construct :
      (trust_remote_code : Bool) (custom_op_libraries : List Text)
      → OnnxEmbedder
      → Result OnnxEmbedder
  construct true custom_op_libraries e = err value_error
  construct false (library ∷ custom_op_libraries) e = err value_error
  construct false [] e =
      if text_eq e.revision_hash []
      then err value_error
      else if ltb e.batch_size 1
      then err value_error
      else ok e

  module _ (e : OnnxEmbedder) where
    -- One vector for each text, before they are normalised.
    unfoldable pub pooled : (prepared : List Text) → Result (List (List np.Float))
    unfolding pool
    pooled prepared =
        let encoded = e.tokenizer prepared in
        e.run encoded >>= λ outputs. ok (zip_with (pool e.pooling) outputs encoded)

    -- `dense.shape[1]`
    abbrev width : List (List np.Float) → ℕ
    width [] = 0
    width (row ∷ rows) = length row

    unfoldable pub embed_batch : (batch : List Text) → Result (List (List np.Float))
    unfolding pooled normalised
    embed_batch batch = pooled (map (◌++◌ e.query_prefix) batch) >>= λ raw.
        let dense = map normalised raw in
        if width dense == e.dense_dim then ok dense else err value_error

    -- The loop, on fuel.
    unfoldable pub embed_from : (fuel : ℕ) (texts : List Text) → Result (List (List np.Float))
    unfolding embed_batch
    embed_from fuel [] = ok []
    embed_from zero (text ∷ texts) = ok []
    embed_from (suc fuel) (text ∷ texts) =
        embed_batch (take e.batch_size (text ∷ texts)) >>= λ vectors.
        embed_from fuel (drop e.batch_size (text ∷ texts)) >>= λ others. ok (vectors ++ others)

    unfoldable pub embed : (texts : List Text) → Result (List (List np.Float))
    unfolding embed_from
    embed texts = embed_from (length texts) texts

-- `_FAMILY`: the pooling, the prefix and the token limit of a kind of model.
unfoldable pub family_of : (model_kind : Text) → Result (Pooling × Text × ℕ)
family_of model_kind =
    if text_eq model_kind (codes "bge-m3")
    then ok (pre_pooled, [], 8192)
    else if text_eq model_kind (codes "e5")
    then ok (mean, codes "query: ", 512)
    else err value_error

unfoldable pub effective_max_tokens : (max_tokens : Option ℕ) (default_max_tokens : ℕ) → ℕ
effective_max_tokens none default_max_tokens = default_max_tokens
effective_max_tokens (some max_tokens) default_max_tokens = max_tokens
