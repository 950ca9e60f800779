-- ===== src/Tests/SyncingTests.antt =====
-- A small Langfuse for src/qfa/adapters/prompts.py that refuses one name, and an instance of the theorem on `sync`.
use qualitative_feedback_ana.Prelude.{
  ℕ, suc, ◌≡◌, ◌≢◌, refl, ap, inl, inr, Bool-cases, Option, none, some, List, [], ◌∷◌, map, Text,
  codes, text_eq, text_eq-eq, text_eq_iff, false, Distinct, text_eq_refl, All, if◌then◌else◌,
}
use qualitative_feedback_ana.Domain.Errors.{ok, err, other_error, ok-injective}
use qualitative_feedback_ana.Prompts.Syncing.{
  Lookup, found, not_found, Langfuse, sync, IsSettled, sync-IsSettled,
}

-- What each name has.
abbrev Store : Type 0
Store = Text → Option (Text × ℕ)

abbrev lookup_of : Option (Text × ℕ) → Lookup
lookup_of none = not_found
lookup_of (some (text, version)) = found text version

abbrev next_version : Option (Text × ℕ) → ℕ
next_version none = 1
next_version (some (text, version)) = suc version

abbrev small : Langfuse Store
small = record {
  get_prompt = λ name store. lookup_of (store name);
  create_prompt = λ name text store.
      if text_eq name (codes "b") then (err (other_error (codes "ApiError")), store) else (
        ok (next_version (store name)),
        λ other. if text_eq name other then some (text, next_version (store name)) else store other,
      );
}

abbrev store : Store
store name = if text_eq name (codes "c") then some (codes "C", 4) else none

abbrev prompts : List (Text × Text)
prompts = (codes "a", codes "A") ∷ (codes "b", codes "B") ∷ (codes "c", codes "C") ∷ []

small_created :
    (name text : Text) (s : Store) (version : ℕ)
    → (small.create_prompt name text s).0 ≡ ok version
    → small.get_prompt name (small.create_prompt name text s).1 ≡ found text version
small_created name text s version h = elim (Bool-cases (text_eq name (codes "b"))) [
  | inl refused ↦ cc (rw refused at h)
  | inr taken ↦ rw taken (rw (text_eq_refl name) (ap (found text) (ok-injective (rw taken at h))))
]

small_apart :
    (name text other : Text) (s : Store)
    → name ≢ other
    → small.get_prompt other (small.create_prompt name text s).1 ≡ small.get_prompt other s
small_apart name text other s differ = elim (Bool-cases (text_eq name (codes "b"))) [
  | inl refused ↦ rw refused refl
  | inr taken ↦ elim (Bool-cases (text_eq name other)) [
    | inl same ↦ absurd (differ (text_eq-eq name other same))
    | inr apart ↦ rw taken (rw apart refl)
  ]
]

different : (s t : Text) → text_eq s t ≡ false → s ≢ t
different s t differ same = let equal = (text_eq_iff s t).1 same in cc

names-Distinct : Distinct (map (λ prompt. prompt.0) prompts)
names-Distinct = (
  (different (codes "a") (codes "b") refl, (different (codes "a") (codes "c") refl, tt)),
  ((different (codes "b") (codes "c") refl, tt), (tt, tt)),
)

synced : (sync small prompts store).0 ≡ (codes "a", 1) ∷ (codes "c", 4) ∷ []
unfolding sync
synced = refl

sync-IsSettled_example :
    All (IsSettled small prompts (sync small prompts store).1) (sync small prompts store).0
sync-IsSettled_example = sync-IsSettled small small_created small_apart prompts store names-Distinct
