-- ===== src/Auth/Database/Invariant.antt =====
-- What the operations of `SQLAlchemyAuthAdapter` (src/qfa/adapters/db.py) keep true of the tables.
use qualitative_feedback_ana.Prelude.{
  ◌≡◌, ◌≢◌, refl, sym, subst, Bool, true, false, not, ◌&&◌, Option, none, some, List, [], ◌∷◌, map,
  Text, text_eq, text_eq-eq, any, keep, text_eq_refl, Among, All, All-map, All-keep, All-keep_test,
  Distinct, Distinct-map-keep, Among-keep, Bool-cases, inl, inr, arith, All-map_list, All-any-false,
}
use qualitative_feedback_ana.Auth.Keys.{TenantApiKey}
use qualitative_feedback_ana.Auth.Database.{
  TenantInfo, Tables, is_tenant, is_key, of_tenant, add_tenant, delete_tenant, find_tenant,
  insert_key, new_key, add_key_for, add_key, delete_key,
}

-- The tenant of a key is in the table, and a superuser key has a tenant that allows them.
abbrev pub HasTenant : List TenantInfo → TenantApiKey → Type 0
HasTenant tenants k =
    (t : TenantInfo) × Among t tenants
    × (t.tenant_id ≡ k.tenant_id)
    × (k.is_superuser ≡ true → t.allows_superusers ≡ true)

-- Primary keys are unique, and each key has its tenant.
abbrev pub IsConsistent : Tables → Type 0
IsConsistent db =
    Distinct (map (λ t. t.tenant_id) db.tenants)
    × Distinct (map (λ k. k.key_id) db.keys)
    × All (HasTenant db.tenants) db.keys

fresh_id :
    {A : Type 0} (id_of : A → Text) (id : Text) (xs : List A)
    → any (λ x. text_eq (id_of x) id) xs ≡ false
    → All (λ y. id ≢ y) (map id_of xs)
fresh_id {A = A} id_of id xs h =
    All-map_list (λ y. id ≢ y) id_of xs
      (All-map (λ x other e. differ x other e) xs (All-any-false (λ x. text_eq (id_of x) id) xs h))
  where
    differ : (x : A) → text_eq (id_of x) id ≡ false → id ≡ id_of x → ⊥
    differ x other e = cc (other, subst (λ z. text_eq z id ≡ true) e (text_eq_refl id))

find_tenant_sound :
    (id : Text) (ts : List TenantInfo) (t : TenantInfo)
    → find_tenant id ts ≡ some t
    → Among t ts × (t.tenant_id ≡ id)
unfolding find_tenant
find_tenant_sound id [] t e = cc
find_tenant_sound id (u ∷ ts) t e = elim (Bool-cases (is_tenant id u)) [
  | inl here ↦
      let same = found (rw here at e) in
      (inl (sym same), text_eq-eq t.tenant_id id (subst (λ v. is_tenant id v ≡ true) same here))
  | inr later ↦ let (among, same) = find_tenant_sound id ts t (rw later at e) in (inr among, same)
]
  where
    found : {v w : TenantInfo} → some v ≡ some w → v ≡ w
    found e = cc

pub add_tenant-IsConsistent :
    (id name : Text) (allows : Bool) (db : Tables)
    → IsConsistent db
    → IsConsistent (add_tenant id name allows db).1
unfolding add_tenant
add_tenant-IsConsistent id name allows db (tenants, keys, has) =
    elim (Bool-cases (any (is_tenant id) db.tenants)) [
      | inl known ↦ rw known (tenants, keys, has)
      | inr fresh ↦ rw fresh (
        (fresh_id (λ t. t.tenant_id) id db.tenants fresh, tenants),
        keys,
        All-map (λ k (t, among, same, allowed). (t, inr among, same, allowed)) db.keys has,
      )
    ]

pub delete_tenant-IsConsistent :
    (id : Text) (db : Tables) → IsConsistent db → IsConsistent (delete_tenant id db).1
unfolding delete_tenant
delete_tenant-IsConsistent id db (tenants, keys, has) =
    elim (Bool-cases (any (is_tenant id) db.tenants)) [
      | inl known ↦ rw known (
        Distinct-map-keep (λ t. t.tenant_id) (λ t. not (is_tenant id t)) db.tenants tenants,
        Distinct-map-keep (λ k. k.key_id) (λ k. not (of_tenant id k)) db.keys keys,
        All-keep_test (HasTenant db.tenants)
            (HasTenant (keep (λ t. not (is_tenant id t)) db.tenants)) (λ k. not (of_tenant id k))
            (λ k (t, among, same, allowed) other. (
              t,
              Among-keep (λ t. not (is_tenant id t)) t db.tenants
                  (subst (λ i. not (text_eq i id) ≡ true) (sym same) other) among,
              same,
              allowed,
            ))
            db.keys has,
      )
      | inr unknown ↦ rw unknown (tenants, keys, has)
    ]

pub delete_key-IsConsistent :
    (id : Text) (db : Tables) → IsConsistent db → IsConsistent (delete_key id db).1
unfolding delete_key
delete_key-IsConsistent id db (tenants, keys, has) = elim (Bool-cases (any (is_key id) db.keys)) [
  | inl known ↦ rw known (
    tenants,
    Distinct-map-keep (λ k. k.key_id) (λ k. not (is_key id k)) db.keys keys,
    All-keep (HasTenant db.tenants) (λ k. not (is_key id k)) db.keys has,
  )
  | inr unknown ↦ rw unknown (tenants, keys, has)
]

insert_key-IsConsistent :
    (k : TenantApiKey) (api_key : Text) (db : Tables)
    → IsConsistent db
    → HasTenant db.tenants k
    → IsConsistent (insert_key k api_key db).1
unfolding insert_key
insert_key-IsConsistent k api_key db (tenants, keys, has) owner =
    elim (Bool-cases (any (is_key k.key_id) db.keys)) [
      | inl known ↦ rw known (tenants, keys, has)
      | inr fresh ↦
          rw fresh (tenants, (fresh_id (λ j. j.key_id) k.key_id db.keys fresh, keys), (owner, has))
    ]

module _ (hash_key : Text → Text) where
  add_key_for-IsConsistent :
      (found : Option TenantInfo) (key_id api_key key_name tenant_id : Text) (is_superuser : Bool)
      (db : Tables)
      → find_tenant tenant_id db.tenants ≡ found
      → IsConsistent db
      → IsConsistent
          (add_key_for hash_key found key_id api_key key_name tenant_id is_superuser db).1
  unfolding add_key_for
  add_key_for-IsConsistent none key_id api_key key_name tenant_id is_superuser db e h = h
  add_key_for-IsConsistent (some t) key_id api_key key_name tenant_id is_superuser db e h =
      let (among, same) = find_tenant_sound tenant_id db.tenants t e in
      elim (Bool-cases (is_superuser && not t.allows_superusers)) [
        | inl refused ↦ rw refused h
        | inr allowed ↦ rw allowed (
            insert_key-IsConsistent
              (new_key hash_key key_id api_key key_name tenant_id is_superuser) api_key db h
              (t, among, same, λ super. ground (arith, allowed, super)))
      ]

  pub add_key-IsConsistent :
      (key_id api_key key_name tenant_id : Text) (is_superuser : Bool) (db : Tables)
      → IsConsistent db
      → IsConsistent (add_key hash_key key_id api_key key_name tenant_id is_superuser db).1
  unfolding add_key
  add_key-IsConsistent key_id api_key key_name tenant_id is_superuser db h =
      add_key_for-IsConsistent (find_tenant tenant_id db.tenants) key_id api_key key_name tenant_id
        is_superuser db refl h
