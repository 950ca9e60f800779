-- ===== src/Auth/Orchestrator.antt =====
-- `AuthOrchestrator` of src/qfa/services/auth_orchestrator.py. A lookup port is what its two methods return for the
-- arguments at hand; the management methods pass their arguments on to the management port, the adapter of Auth.Database.
use qualitative_feedback_ana.Prelude.{
  ◌≡◌, refl, ap, Option-cases, ◌⊎◌, inl, inr, Option, none, some, List, [], ◌∷◌, ◌++◌, Text, All,
}
use qualitative_feedback_ana.Domain.Errors.{Result, ok, err, authentication_error, value_error}
use qualitative_feedback_ana.Auth.Keys.{TenantApiKey}
use qualitative_feedback_ana.Auth.Database.{AuthKeyInfo}

pub record AuthLookupPort : Type 0 where
  pub validate_api_key : Text → Option TenantApiKey
  pub get_auth_keys : Option Text → List AuthKeyInfo

-- `__init__` refuses an empty list.
unfoldable pub new_orchestrator : List AuthLookupPort → Result (List AuthLookupPort)
new_orchestrator [] = err value_error
new_orchestrator (port ∷ ports) = ok (port ∷ ports)

first_match : Option TenantApiKey → Result TenantApiKey → Result TenantApiKey
first_match none later = later
first_match (some k) later = ok k

unfoldable pub orchestrated_key : List AuthLookupPort → (api_key : Text) → Result TenantApiKey
unfolding first_match
orchestrated_key [] api_key = err authentication_error
orchestrated_key (port ∷ ports) api_key =
    first_match (port.validate_api_key api_key) (orchestrated_key ports api_key)

unfoldable pub all_auth_keys : List AuthLookupPort → (tenant_id : Option Text) → List AuthKeyInfo
all_auth_keys [] tenant_id = []
all_auth_keys (port ∷ ports) tenant_id =
    port.get_auth_keys tenant_id ++ all_auth_keys ports tenant_id

-- Either no port finds the key, and it is refused with AuthenticationError, or the first port that finds one decides.
orchestrated_key_cases :
    (ports : List AuthLookupPort) (api_key : Text)
    → (All (λ p. p.validate_api_key api_key ≡ none) ports
        × (orchestrated_key ports api_key ≡ err authentication_error))
      ⊎ ((before : List AuthLookupPort) × (port : AuthLookupPort) × (after : List AuthLookupPort)
          × (k : TenantApiKey) × (ports ≡ before ++ port ∷ after)
          × All (λ p. p.validate_api_key api_key ≡ none) before
          × (port.validate_api_key api_key ≡ some k)
          × (orchestrated_key ports api_key ≡ ok k))
unfolding orchestrated_key
orchestrated_key_cases [] api_key = inl (tt, refl)
orchestrated_key_cases (port ∷ ports) api_key =
    elim (Option-cases (port.validate_api_key api_key)) [
      | inr (k, found) ↦ inr ([], port, ports, k, refl, tt, found, rw found refl)
      | inl missing ↦ elim (orchestrated_key_cases ports api_key) [
        | inl (nowhere, refused) ↦ inl ((missing, nowhere), rw missing refused)
        | inr (before, here, after, k, split, skipped, found, accepted) ↦ inr (
          port ∷ before,
          here,
          after,
          k,
          ap (◌∷◌ port) split,
          (missing, skipped),
          found,
          rw missing accepted,
        )
      ]
    ]
