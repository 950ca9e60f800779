-- ===== src/Tracking/Billing.antt =====
-- The client of src/qfa/adapters/llm_client.py inside the tracking of src/qfa/adapters/tracking_llm.py: which usage is recorded.
use qualitative_feedback_ana.Prelude.Int.{ℤ}
use qualitative_feedback_ana.Prelude.{
  ℕ, zero, suc, ◌+◌, ◌≡◌, refl, sym, subst, ap, ◌∙◌, Bool, Option, none, some, Text, Unicode, All,
  replicate,
}
use qualitative_feedback_ana.Domain.Errors.{Result, ok, err}
use qualitative_feedback_ana.LlmClient.Provider.{Reply, answered, Completion, Usage}
use qualitative_feedback_ana.LlmClient.Retry.Accounting.{wasted_before}
use qualitative_feedback_ana.LlmClient.Complete.{
  LlmResponse, ResponseModel, LiteLlmClient, complete_impl,
}
use qualitative_feedback_ana.LlmClient.Complete.Laws.{complete_impl-IsTotal}
use qualitative_feedback_ana.Tracking.{
  CallContext, LlmCallRecord, status_ok, build_record, complete_tracked,
}
use qualitative_feedback_ana.Tracking.Recording.{complete_tracked-inner}

-- Usage of an answer and of the blocked answers before it.
abbrev pub IsBilled : (reply : ℕ → Reply) → LlmCallRecord → Type 0
IsBilled reply entry =
    (last : ℕ) × (response : Completion) × (usage : Usage) × (reply last ≡ answered response)
    × (response.usage ≡ some usage)
    × (entry.input_tokens ≡ usage.prompt_tokens + (wasted_before reply last).prompt_tokens)
    × (entry.output_tokens ≡ usage.completion_tokens + (wasted_before reply last).completion_tokens)

All-replicate :
    (P : LlmCallRecord → Type 0) (n : ℕ) (entry : LlmCallRecord)
    → P entry
    → All P (replicate n entry)
All-replicate P zero entry h = tt
All-replicate P (suc n) entry h = (h, All-replicate P n entry h)

build_record_usage {ℓ} :
    {Structured : Type ℓ} (ctx : CallContext) (started_at duration_ms : ℕ)
    (outcome : Result (LlmResponse Structured))
    → (build_record ctx started_at duration_ms outcome).status ≡ status_ok
    → (response : LlmResponse Structured) × (outcome ≡ ok response)
      × ((build_record ctx started_at duration_ms outcome).input_tokens ≡ response.prompt_tokens)
      × ((build_record ctx started_at duration_ms outcome).output_tokens
          ≡ response.completion_tokens)
unfolding build_record
build_record_usage ctx started_at duration_ms (err exc) s = cc
build_record_usage ctx started_at duration_ms (ok response) s = (response, refl, refl, refl)

-- Each record with status `ok` that is written has the tokens of an answer of the provider and of all blocked answers before it.
pub complete_tracked-complete_impl {ℓ} :
    {Structured : Type ℓ} (u : Unicode) (ignore_case : (p c : ℕ) → Bool) (int : Text → Option ℤ)
    (client : LiteLlmClient) (reply : ℕ → Reply) (elapsed : ℕ → ℕ)
    (system_message user_message : Text) (timeout : ℕ) (response_model : ResponseModel Structured)
    (fuel : ℕ) (inner : Result (LlmResponse Structured)) (answer : ℕ → Result (Unit {0}))
    (started_at duration_ms : ℕ) (ctx : Option CallContext)
    → complete_impl u ignore_case int client fuel reply elapsed system_message user_message
        response_model timeout
      ≡ some inner
    → All
        (λ entry. entry.status ≡ status_ok → IsBilled reply entry)
        (complete_tracked inner answer started_at duration_ms ctx).0
complete_tracked-complete_impl u ignore_case int client reply elapsed system_message user_message
      timeout response_model fuel inner answer started_at duration_ms ctx h =
    go ctx
  where
    billed :
        (ctx : CallContext)
        → (build_record ctx started_at duration_ms inner).status ≡ status_ok
        → IsBilled reply (build_record ctx started_at duration_ms inner)
    billed ctx s =
        let (result, returned, input, output) =
          build_record_usage ctx started_at duration_ms inner s in
        let (last, response, answered_it, _, (usage, used, prompt, completion, _)) =
          complete_impl-IsTotal u ignore_case int client reply elapsed system_message user_message
            timeout response_model fuel {result = result} (h ∙ ap some returned) in
        (last, response, usage, answered_it, used, input ∙ prompt, output ∙ completion)

    go :
        (ctx : Option CallContext)
        → All
            (λ entry. entry.status ≡ status_ok → IsBilled reply entry)
            (complete_tracked inner answer started_at duration_ms ctx).0
    go none = unfold complete_tracked in tt
    go (some ctx) =
        let (n, _, e) = (complete_tracked-inner inner answer started_at duration_ms ctx).0 in
        subst (λ p. All (λ entry. entry.status ≡ status_ok → IsBilled reply entry) p.0) (sym e)
          (All-replicate (λ entry. entry.status ≡ status_ok → IsBilled reply entry) (suc n) _
            (billed ctx))
