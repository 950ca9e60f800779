-- ===== src/Auth/Database.antt =====
-- `SQLAlchemyAuthAdapter` of src/qfa/adapters/db.py. The tables are lists of rows, in the order in which the database returns them;
-- a new row stands first. An insert whose primary key exists is an IntegrityError. `session.rollback()`, and leaving the session
-- without a commit, give the tables back as they were. The values of `uuid4` and `token_urlsafe` are arguments.
pub mod Invariant
pub mod History
use qualitative_feedback_ana.Prelude.{
  Bool, true, false, not, ◌&&◌, Option, none, some, List, [], ◌∷◌, Text, text_eq, any, keep,
  if◌then◌else◌, map,
}
use qualitative_feedback_ana.Prelude.Sort.{sorted}
use qualitative_feedback_ana.Domain.Errors.{
  Result, ok, err, tenant_not_found, tenant_does_not_allow_superusers, key_already_exists,
  key_not_found, integrity_error,
}
use qualitative_feedback_ana.Auth.Keys.{TenantApiKey, normalized_hash}

pub record TenantInfo : Type 0 where
  pub tenant_id : Text
  pub name : Text
  pub allows_superusers : Bool

pub record AuthKeyInfo : Type 0 where
  pub key_id : Text
  pub name : Text
  pub tenant_id : Text
  pub is_superuser : Bool

pub record KeyCreationResponse : Type 0 where
  pub key_id : Text
  pub api_key : Text

pub record Tables : Type 0 where
  pub tenants : List TenantInfo
  pub keys : List TenantApiKey

abbrev pub is_tenant : Text → TenantInfo → Bool
is_tenant id t = text_eq t.tenant_id id

abbrev pub is_key : Text → TenantApiKey → Bool
is_key id k = text_eq k.key_id id

abbrev pub of_tenant : Text → TenantApiKey → Bool
of_tenant id k = text_eq k.tenant_id id

unfoldable pub add_tenant :
    (tenant_id tenant_name : Text) (allows_superusers : Bool) → Tables → Result Text × Tables
add_tenant tenant_id tenant_name allows_superusers db =
    if any (is_tenant tenant_id) db.tenants then (err integrity_error, db) else (
      ok tenant_id,
      record db {
        tenants =
            record {
              tenant_id = tenant_id;
              name = tenant_name;
              allows_superusers = allows_superusers;
            }
            ∷ db.tenants;
      },
    )

unfoldable pub delete_tenant : (tenant_id : Text) → Tables → Result (Unit {0}) × Tables
delete_tenant tenant_id db =
    let keys = keep (λ k. not (of_tenant tenant_id k)) db.keys in
    if not (any (is_tenant tenant_id) db.tenants) then (err tenant_not_found, db) else (
      ok tt,
      record { tenants = keep (λ t. not (is_tenant tenant_id t)) db.tenants; keys = keys },
    )

-- `one_or_none` of the select on the primary key.
find_tenant : (tenant_id : Text) → List TenantInfo → Option TenantInfo
find_tenant tenant_id [] = none
find_tenant tenant_id (t ∷ ts) = if is_tenant tenant_id t then some t else find_tenant tenant_id ts

insert_key : TenantApiKey → (api_key : Text) → Tables → Result KeyCreationResponse × Tables
insert_key k api_key db =
    if any (is_key k.key_id) db.keys
    then (err key_already_exists, db)
    else (ok (record { key_id = k.key_id; api_key = api_key }), record db { keys = k ∷ db.keys })

module _ (hash_key : Text → Text) where
  abbrev pub new_key :
      (key_id api_key key_name tenant_id : Text) (is_superuser : Bool) → TenantApiKey
  new_key key_id api_key key_name tenant_id is_superuser = record {
    key_id = key_id;
    name = key_name;
    hashed_key = hash_key api_key;
    tenant_id = tenant_id;
    is_superuser = is_superuser;
  }

  add_key_for :
      Option TenantInfo
      → (key_id api_key key_name tenant_id : Text) (is_superuser : Bool) → Tables
      → Result KeyCreationResponse × Tables
  unfolding insert_key
  add_key_for none key_id api_key key_name tenant_id is_superuser db = (err tenant_not_found, db)
  add_key_for (some t) key_id api_key key_name tenant_id is_superuser db =
      if is_superuser && not t.allows_superusers
      then (err tenant_does_not_allow_superusers, db)
      else insert_key (new_key key_id api_key key_name tenant_id is_superuser) api_key db

  unfoldable pub add_key :
      (key_id api_key key_name tenant_id : Text) (is_superuser : Bool)
      → Tables
      → Result KeyCreationResponse × Tables
  unfolding add_key_for find_tenant
  add_key key_id api_key key_name tenant_id is_superuser db =
      add_key_for (find_tenant tenant_id db.tenants) key_id api_key key_name tenant_id is_superuser
        db

unfoldable pub delete_key : (key_id : Text) → Tables → Result (Unit {0}) × Tables
delete_key key_id db =
    if not (any (is_key key_id) db.keys)
    then (err key_not_found, db)
    else (ok tt, record db { keys = keep (λ k. not (is_key key_id k)) db.keys })

-- The metadata of keys: no hash.
abbrev pub key_info : TenantApiKey → AuthKeyInfo
key_info k = record {
  key_id = k.key_id;
  name = k.name;
  tenant_id = k.tenant_id;
  is_superuser = k.is_superuser;
}

-- `ORDER BY` with the collation of the database: `before` compares tenant and key, `tenant_before` tenants.
unfoldable pub get_auth_keys :
    (before : TenantApiKey → TenantApiKey → Bool) → Option Text → Tables → List AuthKeyInfo
unfolding sorted
get_auth_keys before none db = map key_info (sorted before db.keys)
get_auth_keys before (some tenant_id) db =
    map key_info (sorted before (keep (of_tenant tenant_id) db.keys))

unfoldable pub get_tenants :
    (tenant_before : TenantInfo → TenantInfo → Bool) → Tables → List TenantInfo
unfolding sorted
get_tenants tenant_before db = sorted tenant_before db.tenants
