-- ===== src/Tests/AuthTests.antt =====
-- Instances of the theorems on API keys: a hash that writes a letter before the key stands in for scrypt.
use qualitative_feedback_ana.Prelude.{
  ◌≡◌, ◌≢◌, refl, true, false, some, [], ◌∷◌, Text, codes, Among,
}
use qualitative_feedback_ana.Domain.Errors.{ok}
use qualitative_feedback_ana.Auth.Keys.{TenantApiKey, validate_api_key}
use qualitative_feedback_ana.Auth.Database.{
  Tables, add_key, delete_tenant, new_key, KeyCreationResponse, of_tenant,
}
use qualitative_feedback_ana.Auth.Database.Invariant.{IsConsistent}
use qualitative_feedback_ana.Auth.Database.History.{
  at_first, afterwards, serve, request_add_tenant, request_add_key, Reachable-IsConsistent,
  delete_tenant_revokes, add_key-validate_api_key,
}
use qualitative_feedback_ana.Auth.Orchestrator.{AuthLookupPort}

abbrev marked : Text → Text
marked key = b'#' ∷ key

abbrev one_tenant : Tables
one_tenant = record {
  tenants = record { tenant_id = codes "t1"; name = codes "Red"; allows_superusers = false } ∷ [];
  keys = [];
}

abbrev first_key : TenantApiKey
first_key = new_key marked (codes "k1") (codes "secret") (codes "cli") (codes "t1") false

abbrev one_key : Tables
one_key = record one_tenant { keys = first_key ∷ [] }

one_tenant_run :
    (serve marked
      (request_add_tenant (codes "t1") (codes "Red") false)
      (record { tenants = []; keys = [] })).1
    ≡ one_tenant
unfolding serve
one_tenant_run = refl

add_key_run :
    add_key marked (codes "k1") (codes "secret") (codes "cli") (codes "t1") false one_tenant
    ≡ (ok (record { key_id = codes "k1"; api_key = codes "secret" }), one_key)
unfolding add_key
add_key_run = refl

Reachable-IsConsistent_example :
    IsConsistent
      (serve marked
        (request_add_tenant (codes "t1") (codes "Red") false)
        (record { tenants = []; keys = [] })).1
Reachable-IsConsistent_example =
    Reachable-IsConsistent marked
      (serve marked (request_add_tenant (codes "t1") (codes "Red") false)
        (record { tenants = []; keys = [] })).1
      (afterwards (request_add_tenant (codes "t1") (codes "Red") false)
        (record { tenants = []; keys = [] }) at_first)

super_refused :
    (serve marked
      (request_add_key (codes "k2") (codes "s") (codes "x") (codes "t1") true)
      one_tenant).0
    ≡ true
unfolding serve
super_refused = refl

delete_tenant_run : delete_tenant (codes "t1") one_key ≡ (ok tt, record { tenants = []; keys = [] })
unfolding delete_tenant
delete_tenant_run = refl

delete_tenant_revokes_example :
    ((k : TenantApiKey)
      → validate_api_key marked [] (codes "secret") ≡ some k
      → k.tenant_id ≢ codes "t1")
    × ((k : TenantApiKey)
        → Among k (first_key ∷ [])
        → of_tenant (codes "t1") k ≡ false
        → Among k [])
delete_tenant_revokes_example =
    delete_tenant_revokes marked (codes "t1") (codes "secret") one_key
      (record { tenants = []; keys = [] }) delete_tenant_run

add_key-validate_api_key_example :
    (◌≡◌ {A = KeyCreationResponse}
      (record { key_id = codes "k1"; api_key = codes "secret" })
      (record { key_id = codes "k1"; api_key = codes "secret" }))
    × (validate_api_key marked (first_key ∷ []) (codes "secret") ≡ some first_key)
add_key-validate_api_key_example =
    add_key-validate_api_key marked (codes "k1") (codes "secret") (codes "cli") (codes "t1") false
      one_tenant one_key add_key_run tt

abbrev env_port : AuthLookupPort
env_port = record {
  validate_api_key = validate_api_key marked (first_key ∷ []);
  get_auth_keys = λ _. [];
}
