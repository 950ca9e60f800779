-- ===== src/Domain/Errors.antt =====
-- src/qfa/domain/errors.py: a constructor for each class that is raised, with the attributes that
-- handlers read, and `isinstance` along the hierarchy. Messages are left out. The built-in and
-- third-party classes that the modelled code raises or catches stand behind the domain's own.
-- Costs are numbers of some smallest unit, and `status` is the provider's HTTP status.
use qualitative_feedback_ana.Prelude.Int.{ℤ}
use qualitative_feedback_ana.Prelude.{ℕ, ◌≡◌, Bool, true, false, Option, Text, refl, ◌⊎◌, inl, inr}

pub data Error : Type 0 where
  analysis_error analysis_timeout prompt_injection_detected : Error
  feedback_too_large : (estimated_tokens limit : ℕ) → Error
  llm_error llm_timeout llm_bad_request : (status : Option ℕ) → Error
  llm_content_policy_violation :
      (status : Option ℕ) (category severity : Option Text)
      (prompt_tokens completion_tokens cost : ℕ)
      → Error
  llm_rate_limit : (status : Option ℕ) (retry_after : Option ℤ) → Error
  llm_response_parse : (status : Option ℕ) → Error
  authentication_error authorization_error tenant_does_not_allow_superusers : Error
  key_already_exists key_not_found tenant_not_found : Error
  missing_call_scope usage_repository_unavailable : Error
  value_error assertion_error index_error validation_error : Error
  operational_error interface_error integrity_error : Error
  -- Any other exception, by its class, that the web layer has no handler for. Api.Handlers has those of the framework.
  other_error : (class_name : Text) → Error

-- `isinstance(e, AnalysisError)`
abbrev pub is_analysis_error : Error → Bool
is_analysis_error analysis_error = true
is_analysis_error analysis_timeout = true
is_analysis_error prompt_injection_detected = true
is_analysis_error (feedback_too_large _ _) = true
is_analysis_error _ = false

-- `isinstance(e, LLMError)`
abbrev pub is_llm_error : Error → Bool
is_llm_error (llm_error _) = true
is_llm_error (llm_timeout _) = true
is_llm_error (llm_bad_request _) = true
is_llm_error (llm_content_policy_violation _ _ _ _ _ _) = true
is_llm_error (llm_rate_limit _ _) = true
is_llm_error (llm_response_parse _) = true
is_llm_error _ = false

-- What a call that may raise comes back with.
pub data Result {ℓ} (Value : Type ℓ) : Type ℓ where
  err : (raised : Error) → Result Value
  ok : (returned : Value) → Result Value

infixl 5 ◌>>=◌
abbrev pub ◌>>=◌ {ℓ κ} :
    {First : Type ℓ} {Second : Type κ} (call : Result First) (next : First → Result Second)
    → Result Second
err raised >>= next = err raised
ok returned >>= next = next returned

-- A sequence of calls that returned has a first call that returned.
pub >>=-returned {ℓ κ} :
    {First : Type ℓ} {Second : Type κ} (call : Result First) (next : First → Result Second)
    {last : Second}
    → (call >>= next) ≡ ok last
    → (value : First) × (call ≡ ok value) × (next value ≡ ok last)
>>=-returned (err raised) next e = cc
>>=-returned (ok returned) next e = (returned, refl, e)

pub ok-injective {ℓ} : {Value : Type ℓ} {this that : Value} → ok this ≡ ok that → this ≡ that
ok-injective e = cc

-- A sequence of calls that raised has one that raised.
pub >>=-raised {ℓ κ} :
    {First : Type ℓ} {Second : Type κ} (call : Result First) (next : First → Result Second)
    {e : Error}
    → (call >>= next) ≡ err e
    → (call ≡ err e) ⊎ ((value : First) × (call ≡ ok value) × (next value ≡ err e))
>>=-raised (err raised) next h = inl (cc h)
>>=-raised (ok returned) next h = inr (returned, refl, h)
