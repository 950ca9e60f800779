-- ===== src/Auth/Database/History.antt =====
-- Histories of requests to `SQLAlchemyAuthAdapter` (src/qfa/adapters/db.py), and what happens to a key on its way through them.
use qualitative_feedback_ana.Prelude.{
  ◌≡◌, ◌≢◌, refl, sym, ap, subst, Bool, true, false, not, ◌&&◌, Option, none, some, [], Text,
  text_eq, any, keep, text_eq_refl, Among, All, All-keep_test, All-intro, All_at, Among-keep,
  Bool-cases, inl, inr,
}
use qualitative_feedback_ana.Domain.Errors.{Result, ok, err, ok-injective}
use qualitative_feedback_ana.Auth.Keys.{
  TenantApiKey, validate_api_key, validate_api_key_sound, validate_api_key_only, matches_key,
}
use qualitative_feedback_ana.Auth.Database.{
  TenantInfo, Tables, KeyCreationResponse, is_tenant, is_key, of_tenant, add_tenant, delete_tenant,
  find_tenant, insert_key, new_key, add_key_for, add_key, delete_key,
}
use qualitative_feedback_ana.Auth.Database.Invariant.{
  IsConsistent, add_tenant-IsConsistent, delete_tenant-IsConsistent, delete_key-IsConsistent,
  add_key-IsConsistent,
}

-- Requests that change the tables, with what the generators of ids and keys return for them.
pub data Request : Type 0 where
  request_add_tenant : (tenant_id tenant_name : Text) (allows_superusers : Bool) → Request
  request_delete_tenant : (tenant_id : Text) → Request
  request_add_key : (key_id api_key key_name tenant_id : Text) (is_superuser : Bool) → Request
  request_delete_key : (key_id : Text) → Request

abbrev failed : {A : Type 0} → Result A → Bool
failed (ok a) = false
failed (err e) = true

module _ (hash_key : Text → Text) where
  -- Whether the request was refused, and the tables after it.
  unfoldable pub serve : Request → Tables → Bool × Tables
  unfolding add_tenant delete_tenant add_key delete_key
  serve (request_add_tenant tenant_id tenant_name allows_superusers) db =
      let (result, after) = add_tenant tenant_id tenant_name allows_superusers db in
      (failed result, after)
  serve (request_delete_tenant tenant_id) db =
      let (result, after) = delete_tenant tenant_id db in (failed result, after)
  serve (request_add_key key_id api_key key_name tenant_id is_superuser) db =
      let (result, after) = add_key hash_key key_id api_key key_name tenant_id is_superuser db in
      (failed result, after)
  serve (request_delete_key key_id) db =
      let (result, after) = delete_key key_id db in (failed result, after)

  -- The tables that some sequence of requests leads to, from empty ones.
  pub data Reachable : Tables → Type 0 where
    at_first : Reachable (record { tenants = []; keys = [] })
    afterwards : (request : Request) (db : Tables) → Reachable db → Reachable (serve request db).1

  serve-IsConsistent :
      (request : Request) (db : Tables) → IsConsistent db → IsConsistent (serve request db).1
  unfolding serve
  serve-IsConsistent (request_add_tenant id name allows) db h =
      add_tenant-IsConsistent id name allows db h
  serve-IsConsistent (request_delete_tenant id) db h = delete_tenant-IsConsistent id db h
  serve-IsConsistent (request_add_key key_id api_key name tenant_id super) db h =
      add_key-IsConsistent hash_key key_id api_key name tenant_id super db h
  serve-IsConsistent (request_delete_key id) db h = delete_key-IsConsistent id db h

  -- After any sequence of requests on empty tables, tenant ids and key ids are unique, each key has its tenant in the table,
  -- and the tenant of a superuser key allows superusers.
  pub Reachable-IsConsistent : (db : Tables) → Reachable db → IsConsistent db
  Reachable-IsConsistent _ at_first = (tt, tt, tt)
  Reachable-IsConsistent _ (afterwards request db reached) =
      serve-IsConsistent request db (Reachable-IsConsistent db reached)

  add_key_for_refused :
      (found : Option TenantInfo) (key_id api_key name tenant_id : Text) (super : Bool)
      (db : Tables)
      → failed (add_key_for hash_key found key_id api_key name tenant_id super db).0 ≡ true
      → (add_key_for hash_key found key_id api_key name tenant_id super db).1 ≡ db
  unfolding add_key_for insert_key
  add_key_for_refused none key_id api_key name tenant_id super db h = refl
  add_key_for_refused (some t) key_id api_key name tenant_id super db h =
      elim (Bool-cases (super && not t.allows_superusers)) [
        | inl refused ↦ rw refused refl
        | inr allowed ↦ elim (Bool-cases (any (is_key key_id) db.keys)) [
          | inl known ↦ rw (allowed, known) refl
          | inr fresh ↦ cc (rw (allowed, fresh) at h)
        ]
      ]

  -- A request that is refused leaves the tables as they were.
  serve_refused :
      (request : Request) (db : Tables) → (serve request db).0 ≡ true → (serve request db).1 ≡ db
  unfolding serve add_tenant delete_tenant add_key delete_key
  serve_refused (request_add_tenant id name allows) db h =
      elim (Bool-cases (any (is_tenant id) db.tenants)) [
        | inl known ↦ rw known refl
        | inr fresh ↦ cc (rw fresh at h)
      ]
  serve_refused (request_delete_tenant id) db h =
      elim (Bool-cases (any (is_tenant id) db.tenants)) [
        | inl known ↦ cc (rw known at h)
        | inr unknown ↦ rw unknown refl
      ]
  serve_refused (request_add_key key_id api_key name tenant_id super) db h =
      add_key_for_refused (find_tenant tenant_id db.tenants) key_id api_key name tenant_id super db
        h
  serve_refused (request_delete_key id) db h = elim (Bool-cases (any (is_key id) db.keys)) [
    | inl known ↦ cc (rw known at h)
    | inr unknown ↦ rw unknown refl
  ]

  keys_after_delete :
      (tenant_id : Text) (db after : Tables)
      → delete_tenant tenant_id db ≡ (ok tt, after)
      → keep (λ k. not (of_tenant tenant_id k)) db.keys ≡ after.keys
  unfolding delete_tenant
  keys_after_delete tenant_id db after e =
      elim (Bool-cases (any (is_tenant tenant_id) db.tenants)) [
        | inl known ↦ ap (λ p. p.1.keys) (rw known at e)
        | inr unknown ↦ cc (ap (λ p. p.0) (rw unknown at e))
      ]

  -- Once a tenant has been deleted, a key that is found is of another tenant, and the keys of the others are still there.
  pub delete_tenant_revokes :
      (tenant_id provided : Text) (db after : Tables)
      → delete_tenant tenant_id db ≡ (ok tt, after)
      → ((k : TenantApiKey)
          → validate_api_key hash_key after.keys provided ≡ some k
          → k.tenant_id ≢ tenant_id)
        × ((k : TenantApiKey)
            → Among k db.keys
            → of_tenant tenant_id k ≡ false
            → Among k after.keys)
  delete_tenant_revokes tenant_id provided db after e =
      let left = keys_after_delete tenant_id db after e in
      let others : All (λ k. not (of_tenant tenant_id k) ≡ true) after.keys =
        subst (All (λ k. not (of_tenant tenant_id k) ≡ true)) left (
          All-keep_test (λ _. Unit {0}) (λ k. not (of_tenant tenant_id k) ≡ true)
            (λ k. not (of_tenant tenant_id k)) (λ k _ t. t) db.keys
            (All-intro (λ _. tt) db.keys)) in
      (
        λ k found same.
            let (among, _) = validate_api_key_sound hash_key after.keys provided found in
            cc (
              All_at (λ j. not (of_tenant tenant_id j) ≡ true) after.keys others among,
              subst (λ i. text_eq i tenant_id ≡ true) (sym same) (text_eq_refl tenant_id),
            ),
        λ k among other.
            subst (Among k) left
              (Among-keep (λ j. not (of_tenant tenant_id j)) k db.keys (rw other refl) among),
      )

  insert_key-validate :
      (k : TenantApiKey) (api_key : Text) (db after : Tables) (created : KeyCreationResponse)
      → insert_key k api_key db ≡ (ok created, after)
      → matches_key hash_key api_key k ≡ true
      → All (λ j. matches_key hash_key api_key j ≡ false) db.keys
      → (created ≡ record { key_id = k.key_id; api_key = api_key })
        × (validate_api_key hash_key after.keys api_key ≡ some k)
  unfolding insert_key
  insert_key-validate k api_key db after created e match others =
      elim (Bool-cases (any (is_key k.key_id) db.keys)) [
        | inl known ↦ cc (ap (λ p. p.0) (rw known at e))
        | inr fresh ↦ (
          sym (ok-injective (ap (λ p. p.0) (rw fresh at e))),
          subst (λ ks. validate_api_key hash_key ks api_key ≡ some k)
              (ap (λ p. p.1.keys) (rw fresh at e))
              (validate_api_key_only hash_key k db.keys api_key match others),
        )
      ]

  add_key_for-validate :
      (found : Option TenantInfo) (key_id api_key key_name tenant_id : Text) (is_superuser : Bool)
      (db after : Tables) (created : KeyCreationResponse)
      → add_key_for hash_key found key_id api_key key_name tenant_id is_superuser db
        ≡ (ok created, after)
      → All (λ j. matches_key hash_key api_key j ≡ false) db.keys
      → (created ≡ record { key_id = key_id; api_key = api_key })
        × (validate_api_key hash_key after.keys api_key
            ≡ some (new_key hash_key key_id api_key key_name tenant_id is_superuser))
  unfolding add_key_for
  add_key_for-validate none key_id api_key key_name tenant_id is_superuser db after created e
        others =
      cc (ap (λ p. p.0) e)
  add_key_for-validate (some t) key_id api_key key_name tenant_id is_superuser db after created e
        others =
      elim (Bool-cases (is_superuser && not t.allows_superusers)) [
        | inl refused ↦ cc (ap (λ p. p.0) (rw refused at e))
        | inr allowed ↦
            insert_key-validate (new_key hash_key key_id api_key key_name tenant_id is_superuser)
              api_key db after created (rw allowed at e) (text_eq_refl (hash_key api_key)) others
      ]

  -- A key that was added is found by its plaintext, if no key of the table has its hash.
  pub add_key-validate_api_key :
      (key_id api_key key_name tenant_id : Text) (is_superuser : Bool) (db after : Tables)
      {created : KeyCreationResponse}
      → add_key hash_key key_id api_key key_name tenant_id is_superuser db ≡ (ok created, after)
      → All (λ j. matches_key hash_key api_key j ≡ false) db.keys
      → (created ≡ record { key_id = key_id; api_key = api_key })
        × (validate_api_key hash_key after.keys api_key
            ≡ some (new_key hash_key key_id api_key key_name tenant_id is_superuser))
  unfolding add_key
  add_key-validate_api_key key_id api_key key_name tenant_id is_superuser db after e others =
      add_key_for-validate (find_tenant tenant_id db.tenants) key_id api_key key_name tenant_id
        is_superuser db after _ e others
