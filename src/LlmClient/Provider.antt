-- ===== src/LlmClient/Provider.antt =====
-- What LiteLLM answers or raises, as src/qfa/adapters/llm_client.py reads it, and `_to_domain_error` and `_content_filter_signal`.
use qualitative_feedback_ana.Prelude.{
  arith, ℕ, ◌≡◌, Bool, true, ◌&&◌, Option, none, some, List, [], ◌∷◌, Text, codes, contains,
  if◌then◌else◌,
}
use qualitative_feedback_ana.Prelude.Int.{ℤ}
use qualitative_feedback_ana.Domain.Errors.{
  Error, llm_error, llm_timeout, llm_rate_limit, llm_bad_request, llm_content_policy_violation,
  is_llm_error,
}

-- The four classes of LiteLLM that are caught.
pub data ProviderErrorKind : Type 0 where
  timeout rate_limit bad_request api_error : ProviderErrorKind

-- `retry_after` is the header, if there is a response with headers that has it.
pub record ProviderError : Type 0 where
  pub kind : ProviderErrorKind
  pub status_code : Option ℕ
  pub retry_after : Option Text
  pub message : Text

pub record FilterResult : Type 0 where
  pub filtered : Bool
  pub severity : Option Text

pub data Content : Type 0 where
  missing : Content
  text : Text → Content
  other_object : Content

-- `content_filter_results` has no entries where it, or what holds it, is not a dictionary. The result of
-- a category is `none` where that is no dictionary.
pub record Choice : Type 0 where
  pub content : Content
  pub content_filter_results : List (Text × Option FilterResult)

pub record Usage : Type 0 where
  pub prompt_tokens : ℕ
  pub completion_tokens : ℕ

-- `completion_cost` is what the function of that name returns for the response: nothing where it raises.
pub record Completion : Type 0 where
  pub model : Text
  pub choices : List Choice
  pub usage : Option Usage
  pub completion_cost : Option ℕ

-- How `acompletion` ends.
pub data Reply : Type 0 where
  answered : (response : Completion) → Reply
  refused : (exc : ProviderError) → Reply
  raised : (exc : Error) → Reply

-- `int` of a string is an argument: nothing where it raises.
unfoldable pub retry_after_seconds : (int : Text → Option ℤ) → ProviderError → Option ℤ
retry_after_seconds int exc = elim exc.retry_after [ none ↦ none | some header ↦ int header ]

unfoldable pub content_filter_signal :
    List (Text × Option FilterResult) → Option (Text × Option Text)
content_filter_signal [] = none
content_filter_signal ((category, none) ∷ results) = content_filter_signal results
content_filter_signal ((category, some result) ∷ results) =
    if result.filtered then some (category, result.severity) else content_filter_signal results

unfoldable pub to_domain_error : (int : Text → Option ℤ) → ProviderError → Error
unfolding retry_after_seconds
to_domain_error int exc = elim exc.kind [
  | timeout ↦ llm_timeout exc.status_code
  | rate_limit ↦ llm_rate_limit exc.status_code (retry_after_seconds int exc)
  | bad_request ↦
      if contains (codes "filtered") exc.message
        && contains (codes "content management policy") exc.message
      then llm_content_policy_violation exc.status_code none none 0 0 0
      else llm_bad_request exc.status_code
  | api_error ↦ llm_error exc.status_code
]

pub to_domain_error-is_llm_error :
    (int : Text → Option ℤ) (exc : ProviderError) → is_llm_error (to_domain_error int exc) ≡ true
unfolding to_domain_error
to_domain_error-is_llm_error int exc = ground arith
