-- ===== src/Auth/Keys.antt =====
-- `TenantApiKey` of src/qfa/domain/models.py, and the scan of all keys that both lookup adapters make. `hashlib.scrypt` is a
-- parameter; `compare_digest` of two texts is their equality.
use qualitative_feedback_ana.Prelude.{
  ◌≡◌, refl, sym, Bool, true, false, Option, none, some, List, [], ◌∷◌, Text, text_eq, text_eq-eq,
  subst, if◌then◌else◌, Among, All, inl, inr, Bool-cases, ◌⊎◌,
}
use qualitative_feedback_ana.Domain.Errors.{Result, ok, err, value_error}

pub record TenantApiKey : Type 0 where
  pub key_id : Text
  pub name : Text
  pub hashed_key : Text
  pub tenant_id : Text
  pub is_superuser : Bool

module _ (hash_key : Text → Text) where
  -- `_normalize_key_inputs`: exactly one of `key` and `hashed_key`.
  unfoldable pub normalized_hash : (key hashed_key : Option Text) → Result Text
  normalized_hash none none = err value_error
  normalized_hash (some key) (some hashed) = err value_error
  normalized_hash (some key) none = ok (hash_key key)
  normalized_hash none (some hashed) = ok hashed

  abbrev pub matches_key : (provided : Text) → TenantApiKey → Bool
  matches_key provided k = text_eq (hash_key provided) k.hashed_key

  -- The loop goes on after a match, so the last one counts.
  scan_keys : (provided : Text) → Option TenantApiKey → List TenantApiKey → Option TenantApiKey
  scan_keys provided found [] = found
  scan_keys provided found (k ∷ ks) =
      scan_keys provided (if matches_key provided k then some k else found) ks

  -- `validate_api_key` of `EnvironmentAuthLookupAdapter` and, on the rows of its table, of `SQLAlchemyAuthAdapter`.
  unfoldable pub validate_api_key : List TenantApiKey → (provided : Text) → Option TenantApiKey
  unfolding scan_keys
  validate_api_key keys provided = scan_keys provided none keys

  scan_sound :
      (provided : Text) (found : Option TenantApiKey) (ks : List TenantApiKey) (k : TenantApiKey)
      → scan_keys provided found ks ≡ some k
      → (found ≡ some k) ⊎ (Among k ks × (hash_key provided ≡ k.hashed_key))
  unfolding scan_keys
  scan_sound provided found [] k e = inl e
  scan_sound provided found (j ∷ ks) k e = elim (Bool-cases (matches_key provided j)) [
    | inl match ↦ elim (scan_sound provided (some j) ks k (rw match at e)) [
      | inl here ↦ inr (
        inl (same here),
        text_eq-eq (hash_key provided) k.hashed_key
            (subst (λ i. matches_key provided i ≡ true) (sym (same here)) match),
      )
      | inr (among, hashed) ↦ inr (inr among, hashed)
    ]
    | inr other ↦ elim (scan_sound provided found ks k (rw other at e)) [
      | inl here ↦ inl here
      | inr (among, hashed) ↦ inr (inr among, hashed)
    ]
  ]
    where
      same : {i : TenantApiKey} → some i ≡ some k → k ≡ i
      same e = cc

  -- While nothing matches, the scan keeps what it has.
  scan_skips :
      (provided : Text) (found : Option TenantApiKey) (ks : List TenantApiKey)
      → All (λ k. matches_key provided k ≡ false) ks
      → scan_keys provided found ks ≡ found
  unfolding scan_keys
  scan_skips provided found [] h = refl
  scan_skips provided found (k ∷ ks) h = rw h.0 (scan_skips provided found ks h.1)

  -- A key that is found is one of the keys, and it has the hash of what was provided.
  pub validate_api_key_sound :
      (keys : List TenantApiKey) (provided : Text) {k : TenantApiKey}
      → validate_api_key keys provided ≡ some k
      → Among k keys × (hash_key provided ≡ k.hashed_key)
  unfolding validate_api_key
  validate_api_key_sound keys provided e = elim (scan_sound provided none keys _ e) [
    | inl nothing ↦ cc nothing
    | inr found ↦ found
  ]

  -- A key that matches is found where no other key matches.
  pub validate_api_key_only :
      (k : TenantApiKey) (keys : List TenantApiKey) (provided : Text)
      → matches_key provided k ≡ true
      → All (λ j. matches_key provided j ≡ false) keys
      → validate_api_key (k ∷ keys) provided ≡ some k
  unfolding validate_api_key scan_keys
  validate_api_key_only k keys provided match others =
      rw match (scan_skips provided (some k) keys others)
