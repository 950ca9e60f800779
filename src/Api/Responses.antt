-- ===== src/Api/Responses.antt =====
-- The exception handlers of src/qfa/api/app.py, one for each class. A message that is the exception's own is `none`.
use qualitative_feedback_ana.Prelude.{
  ℕ, Option, none, some, List, Text, codes, if◌then◌else◌, min, max, ltb,
}
use qualitative_feedback_ana.Prelude.Int.{ℤ, pos, negsuc}

pub record ApiErrorFieldDetail : Type 0 where
  pub field : Text
  pub issue : Text

pub record ApiErrorDetail : Type 0 where
  pub code : Text
  pub message : Option Text
  pub request_id : Text
  pub fields : Option (List ApiErrorFieldDetail)

-- `retry_after` is the `Retry-After` header.
pub record ErrorResponse : Type 0 where
  pub status_code : ℕ
  pub error : ApiErrorDetail
  pub retry_after : Option ℕ

-- A body without fields, and no header.
abbrev pub plain_response :
    (status_code : ℕ) (code : Text) (message : Option Text) (request_id : Text) → ErrorResponse
plain_response status_code code message request_id = record {
  status_code = status_code;
  error = record { code = code; message = message; request_id = request_id; fields = none };
  retry_after = none;
}

module _ (request_id : Text) where
  unfoldable pub handle_authentication_error : ErrorResponse
  handle_authentication_error = plain_response 401 (codes "authentication_required") none request_id

  unfoldable pub handle_authorization_error : ErrorResponse
  handle_authorization_error = plain_response 403 (codes "forbidden") none request_id

  unfoldable pub handle_conflict_error : ErrorResponse
  handle_conflict_error = plain_response 409 (codes "conflict") none request_id

  unfoldable pub handle_not_found_error : ErrorResponse
  handle_not_found_error = plain_response 404 (codes "not_found") none request_id

  unfoldable pub handle_feedback_too_large : ErrorResponse
  handle_feedback_too_large = plain_response 413 (codes "payload_too_large") none request_id

  unfoldable pub handle_analysis_timeout : ErrorResponse
  handle_analysis_timeout = plain_response 504 (codes "analysis_timeout") none request_id

  unfoldable pub handle_analysis_error : ErrorResponse
  handle_analysis_error = plain_response 502 (codes "analysis_unavailable") none request_id

  unfoldable pub handle_prompt_injection_detected : ErrorResponse
  handle_prompt_injection_detected =
      plain_response 422 (codes "prompt_injection_detected")
        (some (codes "Input rejected: matched a known prompt-injection pattern")) request_id

  unfoldable pub handle_content_policy_violation : ErrorResponse
  handle_content_policy_violation =
      plain_response 422 (codes "content_policy_violation")
        (some (codes "LLM provider rejected the request under its content policy")) request_id

  -- The provider's hint, if it is positive, up to an hour; else thirty seconds.
  unfoldable pub retry_after_header : Option ℤ → ℕ
  retry_after_header none = 30
  retry_after_header (some (negsuc n)) = 30
  retry_after_header (some (pos n)) = if ltb 0 n then max 1 (min n 3600) else 30

  unfoldable pub handle_llm_rate_limited : (retry_after : Option ℤ) → ErrorResponse
  unfolding retry_after_header
  handle_llm_rate_limited retry_after = record {
    status_code = 429;
    error = record {
      code = codes "llm_rate_limited";
      message = some (codes "LLM provider rate limit exceeded");
      request_id = request_id;
      fields = none;
    };
    retry_after = some (retry_after_header retry_after);
  }

  unfoldable pub handle_llm_timeout : ErrorResponse
  handle_llm_timeout =
      plain_response 504 (codes "llm_timeout") (some (codes "LLM provider timed out")) request_id

  unfoldable pub handle_llm_error : ErrorResponse
  handle_llm_error =
      plain_response 502 (codes "llm_error") (some (codes "LLM provider call failed")) request_id

  unfoldable pub handle_usage_repository_unavailable : ErrorResponse
  handle_usage_repository_unavailable =
      plain_response 503 (codes "usage_backend_unavailable")
        (some (codes "Usage backend is temporarily unavailable")) request_id

  unfoldable pub handle_unhandled_exception : ErrorResponse
  handle_unhandled_exception =
      plain_response 500 (codes "internal_error") (some (codes "An unexpected error occurred"))
        request_id
