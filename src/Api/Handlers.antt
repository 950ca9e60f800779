-- ===== src/Api/Handlers.antt =====
-- `register_exception_handlers` of src/qfa/api/app.py. Starlette looks for a handler along the classes of an exception, from its own class upwards.
use qualitative_feedback_ana.Prelude.{
  ℕ, ◌≤◌, ◌≡◌, ◌≢◌, ◌↔◌, ◌⊎◌, refl, Bool, true, false, Option, none, some, List, [], ◌∷◌, Text,
  arith, inl, inr, length, length-map, Bool-cases, all,
}
use qualitative_feedback_ana.Prelude.Int.{ℤ, pos, negsuc}
use qualitative_feedback_ana.Domain.Errors.{
  Error, analysis_error, analysis_timeout, prompt_injection_detected, feedback_too_large, llm_error,
  llm_timeout, llm_bad_request, llm_content_policy_violation, llm_rate_limit, llm_response_parse,
  authentication_error, authorization_error, tenant_does_not_allow_superusers, key_already_exists,
  key_not_found, tenant_not_found, missing_call_scope, usage_repository_unavailable, value_error,
  assertion_error, index_error, validation_error, operational_error, interface_error,
  integrity_error, other_error,
}
use qualitative_feedback_ana.Api.Validation.{
  ValidationIssue, HttpDetail, handle_validation_error, json_invalid_response,
  handle_http_exception,
}
use qualitative_feedback_ana.Api.Responses.{
  ErrorResponse, ApiErrorFieldDetail, handle_authentication_error, handle_authorization_error,
  handle_conflict_error, handle_not_found_error, handle_feedback_too_large, handle_analysis_timeout,
  handle_analysis_error, handle_prompt_injection_detected, handle_content_policy_violation,
  handle_llm_rate_limited, handle_llm_timeout, handle_llm_error,
  handle_usage_repository_unavailable, handle_unhandled_exception, retry_after_header,
}

-- What a route raises: an exception of the library, or one of the framework that has a handler. The HTTPException is FastAPI's; that
-- of Starlette, which it extends, is answered by FastAPI itself.
pub data Raised : Type 0 where
  raised : Error → Raised
  request_validation_error : (errors : List ValidationIssue) → Raised
  http_exception : (status_code : ℕ) (detail : HttpDetail) → Raised

-- The classes that have handlers or stand between those.
pub data ErrorClass : Type 0 where
  exception domain_class : ErrorClass
  request_validation_class : ErrorClass
  http_exception_class starlette_http_class : ErrorClass
  analysis_class analysis_timeout_class prompt_injection_class feedback_too_large_class : ErrorClass
  llm_class llm_timeout_class llm_bad_request_class content_policy_class rate_limit_class
        response_parse_class :
      ErrorClass
  authentication_class authorization_class superusers_class key_exists_class key_not_found_class
        tenant_not_found_class :
      ErrorClass
  usage_repository_class : ErrorClass

-- A class and the classes above it, nearest first.
abbrev bases_of : Error → List ErrorClass
bases_of analysis_error = analysis_class ∷ domain_class ∷ exception ∷ []
bases_of analysis_timeout = analysis_timeout_class ∷ analysis_class ∷ domain_class ∷ exception ∷ []
bases_of prompt_injection_detected =
    prompt_injection_class ∷ analysis_class ∷ domain_class ∷ exception ∷ []
bases_of (feedback_too_large _ _) =
    feedback_too_large_class ∷ analysis_class ∷ domain_class ∷ exception ∷ []
bases_of (llm_error _) = llm_class ∷ domain_class ∷ exception ∷ []
bases_of (llm_timeout _) = llm_timeout_class ∷ llm_class ∷ domain_class ∷ exception ∷ []
bases_of (llm_bad_request _) = llm_bad_request_class ∷ llm_class ∷ domain_class ∷ exception ∷ []
bases_of (llm_content_policy_violation _ _ _ _ _ _) =
    content_policy_class ∷ llm_bad_request_class ∷ llm_class ∷ domain_class ∷ exception ∷ []
bases_of (llm_rate_limit _ _) = rate_limit_class ∷ llm_class ∷ domain_class ∷ exception ∷ []
bases_of (llm_response_parse _) = response_parse_class ∷ llm_class ∷ domain_class ∷ exception ∷ []
bases_of authentication_error = authentication_class ∷ domain_class ∷ exception ∷ []
bases_of authorization_error = authorization_class ∷ domain_class ∷ exception ∷ []
bases_of tenant_does_not_allow_superusers = superusers_class ∷ domain_class ∷ exception ∷ []
bases_of key_already_exists = key_exists_class ∷ domain_class ∷ exception ∷ []
bases_of key_not_found = key_not_found_class ∷ domain_class ∷ exception ∷ []
bases_of tenant_not_found = tenant_not_found_class ∷ domain_class ∷ exception ∷ []
bases_of usage_repository_unavailable = usage_repository_class ∷ domain_class ∷ exception ∷ []
bases_of missing_call_scope = exception ∷ []
bases_of value_error = exception ∷ []
bases_of assertion_error = exception ∷ []
bases_of index_error = exception ∷ []
bases_of validation_error = exception ∷ []
bases_of operational_error = exception ∷ []
bases_of interface_error = exception ∷ []
bases_of integrity_error = exception ∷ []
bases_of (other_error _) = exception ∷ []

abbrev pub class_and_bases : Raised → List ErrorClass
class_and_bases (raised e) = bases_of e
class_and_bases (request_validation_error errors) = request_validation_class ∷ exception ∷ []
class_and_bases (http_exception status_code detail) =
    http_exception_class ∷ starlette_http_class ∷ exception ∷ []

abbrev pub retry_after_of : Raised → Option ℤ
retry_after_of (raised (llm_rate_limit _ retry_after)) = retry_after
retry_after_of _ = none

module _ (request_id : Text) where
  -- What a handler reads is an attribute of its own class.
  validation_response : Raised → Option ErrorResponse
  unfolding handle_validation_error
  validation_response (request_validation_error errors) =
      some (handle_validation_error request_id errors)
  validation_response _ = none

  http_response : Raised → Option ErrorResponse
  unfolding handle_http_exception
  http_response (http_exception status_code detail) =
      some (handle_http_exception request_id status_code detail)
  http_response _ = none

  -- The handler that is registered for a class, if there is one.
  registered_handler : Raised → ErrorClass → Option ErrorResponse
  unfolding handle_authentication_error handle_authorization_error handle_conflict_error
      handle_not_found_error handle_feedback_too_large handle_analysis_timeout handle_analysis_error
      handle_prompt_injection_detected handle_content_policy_violation handle_llm_rate_limited
      handle_llm_timeout handle_llm_error handle_usage_repository_unavailable
      handle_unhandled_exception validation_response http_response
  registered_handler e authorization_class = some (handle_authorization_error request_id)
  registered_handler e authentication_class = some (handle_authentication_error request_id)
  registered_handler e key_exists_class = some (handle_conflict_error request_id)
  registered_handler e key_not_found_class = some (handle_not_found_error request_id)
  registered_handler e tenant_not_found_class = some (handle_not_found_error request_id)
  registered_handler e superusers_class = some (handle_authorization_error request_id)
  registered_handler e request_validation_class = validation_response e
  registered_handler e feedback_too_large_class = some (handle_feedback_too_large request_id)
  registered_handler e analysis_timeout_class = some (handle_analysis_timeout request_id)
  registered_handler e prompt_injection_class = some (handle_prompt_injection_detected request_id)
  registered_handler e analysis_class = some (handle_analysis_error request_id)
  registered_handler e content_policy_class = some (handle_content_policy_violation request_id)
  registered_handler e rate_limit_class =
      some (handle_llm_rate_limited request_id (retry_after_of e))
  registered_handler e llm_timeout_class = some (handle_llm_timeout request_id)
  registered_handler e llm_class = some (handle_llm_error request_id)
  registered_handler e usage_repository_class =
      some (handle_usage_repository_unavailable request_id)
  registered_handler e http_exception_class = http_response e
  registered_handler e exception = some (handle_unhandled_exception request_id)
  registered_handler e _ = none

  handle_as : Raised → List ErrorClass → ErrorResponse
  unfolding registered_handler
  handle_as e [] = handle_unhandled_exception request_id
  handle_as e (c ∷ classes) = elim (registered_handler e c) [
    | some response ↦ response
    | none ↦ handle_as e classes
  ]

  unfoldable pub respond : Raised → ErrorResponse
  unfolding handle_as
  respond e = handle_as e (class_and_bases e)

-- `isinstance(e, DomainError)`
abbrev pub is_domain_error : Error → Bool
is_domain_error missing_call_scope = false
is_domain_error value_error = false
is_domain_error assertion_error = false
is_domain_error index_error = false
is_domain_error validation_error = false
is_domain_error operational_error = false
is_domain_error interface_error = false
is_domain_error integrity_error = false
is_domain_error (other_error _) = false
is_domain_error _ = true

internal_iff :
    (request_id : Text) (e : Error)
    → ((respond request_id (raised e)).status_code ≡ 500) ↔ (is_domain_error e ≡ false)
unfolding respond
internal_iff request_id _ = ground arith

retry_after_header_bounds :
    (request_id : Text) (retry_after : Option ℤ)
    → (1 ≤ retry_after_header request_id retry_after)
      × (retry_after_header request_id retry_after ≤ 3600)
unfolding retry_after_header
retry_after_header_bounds request_id none = (omega arith, omega arith)
retry_after_header_bounds request_id (some (negsuc n)) = (omega arith, omega arith)
retry_after_header_bounds request_id (some (pos n)) = ground arith

-- A header for status 429 and for no other.
abbrev pub HasHeader : ErrorResponse → Type 0
HasHeader response =
    ((response.status_code ≡ 429)
      × ((seconds : ℕ) × (response.retry_after ≡ some seconds) × (1 ≤ seconds) × (seconds ≤ 3600)))
    ⊎ ((response.status_code ≢ 429) × (response.retry_after ≡ none))

header_of : (request_id : Text) (e : Error) → HasHeader (respond request_id (raised e))
unfolding respond
header_of request_id (llm_rate_limit status retry_after) =
    let (least, most) = retry_after_header_bounds request_id retry_after in
    inl (refl, (retry_after_header request_id retry_after, refl, least, most))
header_of request_id _ = inr (λ h. absurd (omega arith), refl)

-- Status 422 and one field for each issue.
abbrev pub IsInvalid : List ValidationIssue → ErrorResponse → Type 0
IsInvalid errors response =
    (response.status_code ≡ 422)
    × (response.retry_after ≡ none)
    × ((fields : List ApiErrorFieldDetail) × (response.error.fields ≡ some fields)
        × (length fields ≡ length errors))

-- The answer by what was raised.
abbrev pub IsAnswered : Raised → ErrorResponse → Type 0
IsAnswered (raised e) response =
    ((response.status_code ≡ 500) ↔ (is_domain_error e ≡ false)) × HasHeader response
IsAnswered (request_validation_error errors) response = IsInvalid errors response
IsAnswered (http_exception status_code detail) response =
    (response.status_code ≡ status_code) × (response.retry_after ≡ none)

handle_validation_error-IsInvalid :
    (request_id : Text) (errors : List ValidationIssue)
    → IsInvalid errors (handle_validation_error request_id errors)
unfolding handle_validation_error json_invalid_response
handle_validation_error-IsInvalid request_id [] = (refl, refl, ([], refl, refl))
handle_validation_error-IsInvalid request_id (e ∷ errors) =
    elim (Bool-cases (all (λ e. e.json_invalid) (e ∷ errors))) [
      | inl json ↦ rw json (refl, refl, (_, refl, length-map _ (e ∷ errors)))
      | inr other ↦ rw other (refl, refl, (_, refl, length-map _ (e ∷ errors)))
    ]

request_id_of :
    (request_id : Text) (x : Raised) → (respond request_id x).error.request_id ≡ request_id
unfolding respond json_invalid_response
request_id_of request_id (raised _) = ground arith
request_id_of request_id (request_validation_error []) = refl
request_id_of request_id (request_validation_error (e ∷ errors)) =
    elim (Bool-cases (all (λ e. e.json_invalid) (e ∷ errors))) [
      | inl json ↦ rw json refl
      | inr other ↦ rw other refl
    ]
request_id_of request_id (http_exception _ _) = refl

-- Every response names the request. An HTTPException gets its own status, and an invalid request status 422 with one field for each issue,
-- both without `Retry-After`. Of all else, the response to an error of the domain is never the one for an internal error, and that to an exception
-- that is none of the domain is; status 429 comes with `Retry-After`, from one second to an hour, and no other status does.
pub respond_lem :
    (request_id : Text) (x : Raised)
    → ((respond request_id x).error.request_id ≡ request_id) × IsAnswered x (respond request_id x)
unfolding respond
respond_lem request_id (raised e) =
    (request_id_of request_id (raised e), (internal_iff request_id e, header_of request_id e))
respond_lem request_id (request_validation_error errors) = (
  request_id_of request_id (request_validation_error errors),
  handle_validation_error-IsInvalid request_id errors,
)
respond_lem request_id (http_exception status_code detail) = (refl, (refl, refl))
