-- ===== src/LlmClient/Complete/Laws.antt =====
-- What `LiteLLMClient._complete_impl` of src/qfa/adapters/llm_client.py reports: its usage and its errors.
use qualitative_feedback_ana.Prelude.Int.{ℤ}
use qualitative_feedback_ana.Prelude.{
  ℕ, suc, ◌+◌, ◌*◌, ◌≤◌, ◌<◌, ◌≡◌, refl, sym, ap, subst, Bool, Option, none, some, List, [], ◌∷◌,
  Text, Unicode, arith,
}
use qualitative_feedback_ana.Domain.Errors.{
  Result, ok, err, ◌>>=◌, ok-injective, >>=-returned, index_error,
}
use qualitative_feedback_ana.LlmClient.Provider.{
  Choice, Content, missing, text, other_object, Completion, Usage, Reply, answered, refused, raised,
}
use qualitative_feedback_ana.LlmClient.Retry.{Discarded, nothing_discarded, attempt_once}
use qualitative_feedback_ana.LlmClient.Retry.Accounting.{
  wasted_before, IsLast, GoesOn, run_attempts_ends, run_attempts-IsLast,
}
use qualitative_feedback_ana.LlmClient.Injection.{check_injection, check_message_tokens}
use qualitative_feedback_ana.LlmClient.Complete.{
  LlmResponse, ResponseModel, parse_content, add_cost, build_response, build_content, LiteLlmClient,
  complete_impl,
}

-- An attempt that returns has discarded nothing of its own.
pub attempt_once-ok :
    (int : Text → Option ℤ) (r : Reply) (discarded : Discarded) {total : Discarded}
    {response : Completion}
    → (total, ok response) ≡ attempt_once int r discarded
    → (r ≡ answered response) × (total ≡ discarded)
unfolding attempt_once
attempt_once-ok int (answered a) discarded e = ground arith
attempt_once-ok int (refused exc) discarded e = cc (ap (λ p. p.1) e)
attempt_once-ok int (raised exc) discarded e = cc (ap (λ p. p.1) e)

-- The tokens and the cost of a response, with what was discarded.
abbrev pub IsTotal {ℓ} :
    {Structured : Type ℓ} → Completion → Discarded → LlmResponse Structured → Type 0
IsTotal response discarded result =
    (usage : Usage) × (response.usage ≡ some usage)
    × (result.prompt_tokens ≡ usage.prompt_tokens + discarded.prompt_tokens)
    × (result.completion_tokens ≡ usage.completion_tokens + discarded.completion_tokens)
    × (result.cost ≡ add_cost response.completion_cost discarded.cost)

build_content-IsTotal {ℓ} :
    {Structured : Type ℓ} (response_model : ResponseModel Structured) (discarded : Discarded)
    (response : Completion) (content : Content) (usage : Option Usage)
    {result : LlmResponse Structured}
    → response.usage ≡ usage
    → build_content response_model discarded response content usage ≡ ok result
    → IsTotal response discarded result
unfolding build_content
build_content-IsTotal response_model discarded response (text content) (some usage) used e =
    let (structured, _, built) = >>=-returned (parse_content response_model content) _ e in
    let same = ok-injective built in
    (
      usage,
      used,
      sym (ap (λ r. r.prompt_tokens) same),
      sym (ap (λ r. r.completion_tokens) same),
      sym (ap (λ r. r.cost) same),
    )
build_content-IsTotal response_model discarded response (text content) none used e = cc
build_content-IsTotal response_model discarded response missing (some usage) used e = cc
build_content-IsTotal response_model discarded response missing none used e = cc
build_content-IsTotal response_model discarded response other_object (some usage) used e = cc
build_content-IsTotal response_model discarded response other_object none used e = cc

build_response-IsTotal {ℓ} :
    {Structured : Type ℓ} (response_model : ResponseModel Structured) (discarded : Discarded)
    (response : Completion) {result : LlmResponse Structured}
    → build_response response_model discarded response ≡ ok result
    → IsTotal response discarded result
unfolding build_response
build_response-IsTotal response_model discarded response {result} = go response.choices
  where
    go :
        (choices : List Choice)
        → (elim choices [
          | [] ↦ err index_error
          | choice ∷ _ ↦
              build_content response_model discarded response choice.content response.usage
        ])
          ≡ ok result
        → IsTotal response discarded result
    go [] e = cc
    go (choice ∷ _) e =
        build_content-IsTotal response_model discarded response choice.content response.usage refl e

module _ (u : Unicode) (ignore_case : (p c : ℕ) → Bool) (int : Text → Option ℤ)
    (client : LiteLlmClient) (reply : ℕ → Reply) (elapsed : ℕ → ℕ)
    (system_message user_message : Text) (timeout : ℕ) where
  -- If each attempt takes time, then the call ends, with fuel for three timeouts: with a response or with an error.
  pub complete_impl_ends {ℓ} :
      {Structured : Type ℓ} (response_model : ResponseModel Structured)
      → ((n : ℕ) → n ≤ elapsed n)
      → (outcome : Result (LlmResponse Structured)) × (complete_impl u ignore_case int client
            (suc (3 * timeout))
            reply
            elapsed
            system_message
            user_message
            response_model
            timeout
          ≡ some outcome)
  unfolding complete_impl
  complete_impl_ends response_model later =
      go
        (check_injection u ignore_case user_message >>= λ safe.
          check_message_tokens client.chars_per_token client.max_total_tokens system_message
            user_message)
        (run_attempts_ends int reply elapsed timeout later (suc (3 * timeout)) 0 nothing_discarded
          (omega arith) (omega arith))
    where
      go :
          (checked : Result (Unit {0})) {end : Option (Discarded × Result Completion)}
          → (total : Discarded) × (outcome : Result Completion) × (end ≡ some (total, outcome))
          → (outcome : Result (LlmResponse _)) × ((elim checked [
            | err e ↦ some (err e)
            | ok allowed ↦ elim end [
              | none ↦ none
              | some (discarded, outcome) ↦
                  some (outcome >>= build_response response_model discarded)
            ]
          ])
              ≡ some outcome)
      go (err e) h = (err e, refl)
      go (ok allowed) (total, outcome, h) =
          (outcome >>= build_response response_model total, rw h refl)

  -- Tokens and cost of a response are those of the answer that was taken, together with those of all blocked answers
  -- before it; each attempt before it failed in a way that is retried, before three timeouts had passed.
  pub complete_impl-IsTotal {ℓ} :
      {Structured : Type ℓ} (response_model : ResponseModel Structured) (fuel : ℕ)
      {result : LlmResponse Structured}
      → complete_impl u ignore_case int client fuel reply elapsed system_message user_message
          response_model timeout
        ≡ some (ok result)
      → (last : ℕ) × (response : Completion) × (reply last ≡ answered response)
        × ((n : ℕ) → n < last → GoesOn int reply elapsed timeout n)
        × IsTotal response (wasted_before reply last) result
  unfolding complete_impl
  complete_impl-IsTotal response_model fuel {result} e =
      go
        (check_injection u ignore_case user_message >>= λ safe.
          check_message_tokens client.chars_per_token client.max_total_tokens system_message
            user_message)
        (λ ending. run_attempts-IsLast int reply elapsed timeout fuel 0 {ending = ending}) e
    where
      go :
          (checked : Result (Unit {0})) {end : Option (Discarded × Result Completion)}
          → ((ending : Discarded × Result Completion)
              → end ≡ some ending
              → (last : ℕ) × IsLast int reply elapsed timeout 0 last ending)
          → (elim checked [
            | err e ↦ some (err e)
            | ok allowed ↦ elim end [
              | none ↦ none
              | some (discarded, outcome) ↦
                  some (outcome >>= build_response response_model discarded)
            ]
          ])
            ≡ some (ok result)
          → (last : ℕ) × (response : Completion) × (reply last ≡ answered response)
            × ((n : ℕ) → n < last → GoesOn int reply elapsed timeout n)
            × IsTotal response (wasted_before reply last) result
      go (err _) is_last h = cc
      go (ok allowed) {end = none} is_last h = cc
      go (ok allowed) {end = some (total, err _)} is_last h = cc
      go (ok allowed) {end = some (total, ok response)} is_last h =
          let (last, (_, before, ends)) = is_last (total, ok response) refl in
          let (answer, same) = attempt_once-ok int (reply last) (wasted_before reply last) ends in
          (
            last,
            response,
            answer,
            λ n lt. before n (omega arith) lt,
            subst (λ d. IsTotal response d result) same
                (build_response-IsTotal response_model total response {result = result} (cc h)),
          )
