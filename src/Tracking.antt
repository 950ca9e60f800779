-- ===== src/Tracking.antt =====
-- src/qfa/adapters/tracking_llm.py with the records and contexts of src/qfa/domain/usage_models.py: one record for each
-- call of the LLM. The inner LLM, the clocks and the repository are arguments.

pub mod Recording
pub mod Billing
pub mod Usage
use qualitative_feedback_ana.Prelude.Int.{ℤ, pos, negsuc}
use qualitative_feedback_ana.Prelude.{
  ℕ, zero, suc, ◌≡◌, Bool, true, false, Option, none, some, List, [], ◌∷◌, ◌++◌, Text, codes,
  if◌then◌else◌,
}
use qualitative_feedback_ana.Domain.Errors.{
  Error, Result, ok, err, analysis_error, analysis_timeout, prompt_injection_detected,
  feedback_too_large, llm_error, llm_timeout, llm_bad_request, llm_content_policy_violation,
  llm_rate_limit, llm_response_parse, authentication_error, authorization_error,
  tenant_does_not_allow_superusers, key_already_exists, key_not_found, tenant_not_found,
  missing_call_scope, usage_repository_unavailable, value_error, assertion_error, index_error,
  validation_error, operational_error, interface_error, integrity_error, other_error,
}
use qualitative_feedback_ana.LlmClient.Complete.{LlmResponse}

pub data Operation : Type 0 where
  analyze summarize summarize_aggregate assign_codes detect_sensitive unknown : Operation

pub data CallStatus : Type 0 where
  status_ok status_error : CallStatus

pub record CallContext : Type 0 where
  pub tenant_id : Text
  pub operation : Operation
  pub call_id : Text

-- Times are numbers; the duration is in milliseconds.
pub record LlmCallRecord : Type 0 where
  pub tenant_id : Text
  pub operation : Operation
  pub call_id : Text
  pub timestamp : ℕ
  pub call_duration_ms : ℕ
  pub model : Text
  pub input_tokens : ℕ
  pub output_tokens : ℕ
  pub cost_usd : ℕ
  pub status : CallStatus
  pub error_class : Option Text

-- A float where a cost is expected.
pub data Cost : Type 0 where
  absent not_a_number : Cost
  amount : ℤ → Cost

unfoldable pub to_decimal : Cost → ℕ
to_decimal absent = 0
to_decimal not_a_number = 0
to_decimal (amount (negsuc n)) = 0
to_decimal (amount (pos n)) = n

-- `type(exc).__name__`
abbrev pub class_name : Error → Text
class_name analysis_error = codes "AnalysisError"
class_name analysis_timeout = codes "AnalysisTimeoutError"
class_name prompt_injection_detected = codes "PromptInjectionDetectedError"
class_name (feedback_too_large _ _) = codes "FeedbackTooLargeError"
class_name (llm_error _) = codes "LLMError"
class_name (llm_timeout _) = codes "LLMTimeoutError"
class_name (llm_bad_request _) = codes "LLMBadRequestError"
class_name (llm_content_policy_violation _ _ _ _ _ _) = codes "LLMContentPolicyViolationError"
class_name (llm_rate_limit _ _) = codes "LLMRateLimitError"
class_name (llm_response_parse _) = codes "LLMResponseParseError"
class_name authentication_error = codes "AuthenticationError"
class_name authorization_error = codes "AuthorizationError"
class_name tenant_does_not_allow_superusers = codes "TenantDoesNotAllowSuperUsersError"
class_name key_already_exists = codes "KeyAlreadyExistsError"
class_name key_not_found = codes "KeyNotFoundError"
class_name tenant_not_found = codes "TenantNotFoundError"
class_name missing_call_scope = codes "MissingCallScopeError"
class_name usage_repository_unavailable = codes "UsageRepositoryUnavailableError"
class_name value_error = codes "ValueError"
class_name assertion_error = codes "AssertionError"
class_name index_error = codes "IndexError"
class_name validation_error = codes "ValidationError"
class_name operational_error = codes "OperationalError"
class_name interface_error = codes "InterfaceError"
class_name integrity_error = codes "IntegrityError"
class_name (other_error name) = name

-- The cost of a response, which is NaN where there is no price.
abbrev pub response_cost : Option ℕ → Cost
response_cost none = not_a_number
response_cost (some cost) = amount (pos cost)

-- What an exception carries of discarded usage: input tokens, output tokens and cost.
abbrev pub discarded_usage : Error → ℕ × ℕ × ℕ
discarded_usage (llm_content_policy_violation _ _ _ prompt_tokens completion_tokens cost) =
    (prompt_tokens, completion_tokens, to_decimal (amount (pos cost)))
discarded_usage _ = (0, 0, 0)

unfoldable pub build_record {ℓ} :
    {Structured : Type ℓ}
    → CallContext
    → (started_at duration_ms : ℕ) → Result (LlmResponse Structured)
    → LlmCallRecord
unfolding to_decimal
build_record ctx started_at duration_ms (err exc) = record {
  tenant_id = ctx.tenant_id;
  operation = ctx.operation;
  call_id = ctx.call_id;
  timestamp = started_at;
  call_duration_ms = duration_ms;
  model = [];
  input_tokens = (discarded_usage exc).0;
  output_tokens = (discarded_usage exc).1;
  cost_usd = (discarded_usage exc).2;
  status = status_error;
  error_class = some (class_name exc);
}
build_record ctx started_at duration_ms (ok response) = record {
  tenant_id = ctx.tenant_id;
  operation = ctx.operation;
  call_id = ctx.call_id;
  timestamp = started_at;
  call_duration_ms = duration_ms;
  model = response.model;
  input_tokens = response.prompt_tokens;
  output_tokens = response.completion_tokens;
  cost_usd = to_decimal (response_cost response.cost);
  status = status_ok;
  error_class = none;
}

-- The exceptions on which writing a record is tried again.
abbrev pub is_transient : Error → Bool
is_transient operational_error = true
is_transient interface_error = true
is_transient _ = false

-- The calls of the repository, in order, and how the last one ended. `answer n` is what the repository answers to call n.
unfoldable pub attempt_record :
    (answer : ℕ → Result (Unit {0})) (attempts_left attempt : ℕ)
    → LlmCallRecord
    → List LlmCallRecord × Result (Unit {0})
attempt_record answer zero attempt entry = ([], err assertion_error)
attempt_record answer (suc left) attempt entry =
    let rest = attempt_record answer left (suc attempt) entry in
    elim (answer attempt) [
      | ok done ↦ (entry ∷ [], ok done)
      | err e ↦ elim left [
        | zero ↦ (entry ∷ [], err e)
        | suc _ ↦ if is_transient e then (entry ∷ rest.0, rest.1) else (entry ∷ [], err e)
      ]
    ]

-- `stop_after_attempt(3)`
unfoldable pub record_with_retry :
    (answer : ℕ → Result (Unit {0})) → LlmCallRecord → List LlmCallRecord × Result (Unit {0})
unfolding attempt_record
record_with_retry answer = attempt_record answer 3 0

-- Whatever is raised stops here.
unfoldable pub record_safely : (answer : ℕ → Result (Unit {0})) → LlmCallRecord → List LlmCallRecord
unfolding record_with_retry
record_safely answer entry = (record_with_retry answer entry).0

-- The calls of the repository, and what the caller gets. `inner` is the call of the inner LLM.
unfoldable pub complete_tracked {ℓ} :
    {Structured : Type ℓ}
    → (inner : Result (LlmResponse Structured)) (answer : ℕ → Result (Unit {0}))
      (started_at duration_ms : ℕ)
    → (current_call_context : Option CallContext)
    → List LlmCallRecord × Result (LlmResponse Structured)
unfolding build_record record_safely
complete_tracked inner answer started_at duration_ms none = ([], inner)
complete_tracked inner answer started_at duration_ms (some ctx) =
    (record_safely answer (build_record ctx started_at duration_ms inner), inner)
