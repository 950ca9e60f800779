-- ===== src/LlmClient/Retry.antt =====
-- The retry loop of `LiteLLMClient._complete_impl` in src/qfa/adapters/llm_client.py: one attempt, what blocked attempts were
-- billed for, and the attempts in a row. `stop_after_delay` of tenacity stops when the time since the first attempt has
-- reached the delay; that time at the end of attempt n is `elapsed n`.
pub mod Accounting
use qualitative_feedback_ana.Prelude.Int.{ℤ}
use qualitative_feedback_ana.Prelude.{
  ℕ, zero, suc, ◌+◌, ◌-◌, ◌*◌, ◌≤◌, ◌<◌, ◌≡◌, refl, ap, Bool, true, false, not, ◌&&◌, Option, none,
  some, List, [], ◌∷◌, Text, leb, if◌then◌else◌, arith, Bool-cases, inl, inr,
}
use qualitative_feedback_ana.Domain.Errors.{
  Error, Result, ok, err, llm_error, llm_timeout, llm_rate_limit, llm_content_policy_violation,
  index_error,
}
use qualitative_feedback_ana.Executor.{retry_budget_multiplier}
use qualitative_feedback_ana.LlmClient.Provider.{
  Content, missing, text, other_object, Completion, Reply, answered, refused, raised,
  content_filter_signal, to_domain_error,
}

-- Costs are numbers of some smallest unit.
pub record Discarded : Type 0 where
  pub prompt_tokens : ℕ
  pub completion_tokens : ℕ
  pub cost : ℕ

abbrev pub nothing_discarded : Discarded
nothing_discarded = record { prompt_tokens = 0; completion_tokens = 0; cost = 0 }

-- A blocked response without usage counts for nothing, one without a price for its tokens.
unfoldable pub discard : Completion → Discarded → Discarded
discard response discarded = elim response.usage [
  | none ↦ discarded
  | some usage ↦ record {
    prompt_tokens = discarded.prompt_tokens + usage.prompt_tokens;
    completion_tokens = discarded.completion_tokens + usage.completion_tokens;
    cost = discarded.cost + elim response.completion_cost [ none ↦ 0 | some cost ↦ cost ];
  }
]

-- The exceptions that tenacity is told to retry on.
abbrev pub is_retried : Error → Bool
is_retried (llm_timeout _) = true
is_retried (llm_rate_limit _ _) = true
is_retried (llm_content_policy_violation _ _ _ _ _ _) = true
is_retried _ = false

-- What the body of `with attempt` makes of a reply.
unfoldable pub attempt_once :
    (int : Text → Option ℤ) → Reply → Discarded → Discarded × Result Completion
unfolding to_domain_error content_filter_signal discard
attempt_once int (refused exc) discarded = (discarded, err (to_domain_error int exc))
attempt_once int (raised exc) discarded = (discarded, err exc)
attempt_once int (answered response) discarded = elim response.choices [
  | [] ↦ (discarded, err index_error)
  | choice ∷ _ ↦ elim choice.content [
    | missing ↦ elim (content_filter_signal choice.content_filter_results) [
      | none ↦ (discarded, err (llm_error none))
      | some (category, severity) ↦
          let total = discard response discarded in
          (
            total,
            err (
                llm_content_policy_violation none (some category) severity total.prompt_tokens
                  total.completion_tokens total.cost),
          )
    ]
    | text s ↦ (discarded, ok response)
    | other_object ↦ (discarded, ok response)
  ]
]

module _ (int : Text → Option ℤ) (reply : ℕ → Reply) (elapsed : ℕ → ℕ) (timeout : ℕ) where
  abbrev pub is_stopped : (attempt : ℕ) → Bool
  is_stopped attempt = leb (retry_budget_multiplier * timeout) (elapsed attempt)

  -- Attempts from number `attempt` on; nothing if the fuel is gone.
  unfoldable pub run_attempts :
      (fuel attempt : ℕ) → Discarded → Option (Discarded × Result Completion)
  unfolding attempt_once
  run_attempts zero attempt discarded = none
  run_attempts (suc fuel) attempt discarded =
      let (total, outcome) = attempt_once int (reply attempt) discarded in
      let rest = run_attempts fuel (suc attempt) total in
      elim outcome [
        | ok response ↦ some (total, ok response)
        | err e ↦ if is_retried e && not (is_stopped attempt) then rest else some (total, err e)
      ]
