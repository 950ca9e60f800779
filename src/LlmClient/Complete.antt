-- ===== src/LlmClient/Complete.antt =====
-- `LiteLLMClient._complete_impl` of src/qfa/adapters/llm_client.py: the checks, the attempts, and the response that is made of the last one.
pub mod Laws
pub mod Failing
use qualitative_feedback_ana.Prelude.Int.{ℤ}
use qualitative_feedback_ana.Prelude.{
  ℕ, zero, suc, ◌+◌, ◌*◌, ◌≡◌, refl, Bool, Option, none, some, List, [], ◌∷◌, Text, Unicode,
}
use qualitative_feedback_ana.Domain.Errors.{
  Error, Result, ok, err, ◌>>=◌, llm_error, llm_response_parse, value_error, index_error,
}
use qualitative_feedback_ana.LlmClient.Provider.{
  Content, missing, text, other_object, Completion, Usage, Reply,
}
use qualitative_feedback_ana.LlmClient.Injection.{check_injection, check_message_tokens}
use qualitative_feedback_ana.LlmClient.Retry.{Discarded, nothing_discarded, run_attempts}

-- `cost` is nothing for NaN.
pub record LlmResponse {ℓ} (Structured : Type ℓ) : Type ℓ where
  pub structured : Structured
  pub model : Text
  pub prompt_tokens : ℕ
  pub completion_tokens : ℕ
  pub cost : Option ℕ

-- What `response_model` is: a pydantic model with its validation, a string type, or neither.
pub data ResponseModel {ℓ} (Structured : Type ℓ) : Type ℓ where
  base_model : (model_validate_json : Text → Option Structured) → ResponseModel Structured
  string_type : (as_string : Text → Structured) → ResponseModel Structured
  neither : ResponseModel Structured

abbrev pub parse_content {ℓ} :
    {Structured : Type ℓ} → ResponseModel Structured → Text → Result Structured
parse_content (base_model model_validate_json) content = elim (model_validate_json content) [
  | none ↦ err (llm_response_parse none)
  | some structured ↦ ok structured
]
parse_content (string_type as_string) content = ok (as_string content)
parse_content neither content = err value_error

-- A sum with NaN is NaN.
abbrev pub add_cost : Option ℕ → ℕ → Option ℕ
add_cost none discarded = none
add_cost (some cost) discarded = some (cost + discarded)

-- What follows the loop. The loop returns no response without a choice or without content.
unfoldable pub build_content {ℓ} :
    {Structured : Type ℓ}
    → ResponseModel Structured
    → Discarded
    → Completion
    → Content
    → Option Usage
    → Result (LlmResponse Structured)
build_content response_model discarded response (text content) (some usage) =
    parse_content response_model content >>= λ structured. ok record {
      structured = structured;
      model = response.model;
      prompt_tokens = usage.prompt_tokens + discarded.prompt_tokens;
      completion_tokens = usage.completion_tokens + discarded.completion_tokens;
      cost = add_cost response.completion_cost discarded.cost;
    }
build_content response_model discarded response _ _ = err (llm_error none)

unfoldable pub build_response {ℓ} :
    {Structured : Type ℓ}
    → ResponseModel Structured
    → Discarded
    → Completion
    → Result (LlmResponse Structured)
unfolding build_content
build_response response_model discarded response = elim response.choices [
  | [] ↦ err index_error
  | choice ∷ _ ↦ build_content response_model discarded response choice.content response.usage
]

pub record LiteLlmClient : Type 0 where
  pub chars_per_token : ℕ
  pub max_total_tokens : ℕ

module _ (u : Unicode) (ignore_case : (p c : ℕ) → Bool) (int : Text → Option ℤ)
    (client : LiteLlmClient) where
  -- Nothing where the fuel of the loop is gone. `timeout` is in the unit of `elapsed`.
  unfoldable pub complete_impl {ℓ} :
      {Structured : Type ℓ} (fuel : ℕ) (reply : ℕ → Reply) (elapsed : ℕ → ℕ)
      (system_message user_message : Text) (response_model : ResponseModel Structured) (timeout : ℕ)
      → Option (Result (LlmResponse Structured))
  unfolding check_injection check_message_tokens run_attempts build_response
  complete_impl fuel reply elapsed system_message user_message response_model timeout =
      elim (check_injection u ignore_case user_message >>= λ safe.
      check_message_tokens client.chars_per_token client.max_total_tokens system_message
        user_message) [
          | err e ↦ some (err e)
          | ok allowed ↦ elim (run_attempts int reply elapsed timeout fuel 0 nothing_discarded) [
            | none ↦ none
            | some (discarded, outcome) ↦ some (outcome >>= build_response response_model discarded)
          ]
        ]
