-- ===== src/Executor.antt =====
-- src/qfa/services/llm_call_executor.py: deadline, token budget and redaction around a call of the LLM.
-- Clocks and deadlines are microseconds. A timeout is a number of thirds of a microsecond, since
-- the time that remains is divided by three. `seconds` that the source takes as a float are exact here.
pub mod Redaction
pub mod Restoring
use qualitative_feedback_ana.Prelude.{
  ℕ, ◌+◌, ◌-◌, ◌*◌, ◌/◌, ◌≤◌, ◌≡◌, ◌↔◌, ◌++◌, Text, arith, length, ltb, leb, min, inl, inr,
  Bool-cases, if◌then◌else◌,
}
use qualitative_feedback_ana.Domain.Errors.{
  Result, ok, err, analysis_timeout, feedback_too_large, ◌>>=◌, >>=-returned,
}

pub record ExecutorSettings : Type 0 where
  pub chars_per_token : ℕ
  -- In microseconds.
  pub llm_timeout : ℕ
  pub max_total_tokens : ℕ

-- `_MINIMUM_ATTEMPT_WINDOW`, 10 seconds.
abbrev pub minimum_attempt_window : ℕ
minimum_attempt_window = 10000000

-- `LLM_RETRY_BUDGET_MULTIPLIER`
abbrev pub retry_budget_multiplier : ℕ
retry_budget_multiplier = 3

module _ (settings : ExecutorSettings) where
  -- The first test is subsumed by the second for a deadline that has passed.
  unfoldable pub check_deadline_and_get_timeout : (now deadline : ℕ) → Result ℕ
  check_deadline_and_get_timeout now deadline =
      let remaining = deadline - now in
      if leb deadline now
      then err analysis_timeout
      else if ltb remaining minimum_attempt_window
      then err analysis_timeout
      else ok (min (retry_budget_multiplier * settings.llm_timeout) remaining)

  unfoldable pub check_token_limit : (system_message user_message : Text) → Result (Unit {0})
  check_token_limit system_message user_message =
      let estimated_tokens = length (system_message ++ user_message) / settings.chars_per_token in
      if ltb settings.max_total_tokens estimated_tokens
      then err (feedback_too_large estimated_tokens settings.max_total_tokens)
      else ok tt

  -- `client` is the connection that the call site names, with its response model.
  unfoldable pub complete {ℓ} :
      {Response : Type ℓ}
      (client : (system_message user_message tenant_id : Text) (timeout : ℕ) → Result Response)
      (system_message user_message tenant_id : Text) (now deadline : ℕ)
      → Result Response
  unfolding check_deadline_and_get_timeout
  complete client system_message user_message tenant_id now deadline =
      check_deadline_and_get_timeout now deadline >>= λ timeout.
      client system_message user_message tenant_id timeout

  -- Three attempts with the timeout that is handed out end by the deadline, and none is longer
  -- than the configured timeout.
  pub check_deadline-IsWithin :
      (now deadline : ℕ) {timeout : ℕ}
      → check_deadline_and_get_timeout now deadline ≡ ok timeout
      → (3 * now + 3 * timeout ≤ 3 * deadline) × (timeout ≤ 3 * settings.llm_timeout)
  unfolding check_deadline_and_get_timeout
  check_deadline-IsWithin now deadline h = ground arith

  -- A timeout is handed out if and only if the minimal window of ten seconds is left.
  pub check_deadline_iff :
      (now deadline : ℕ)
      → ((timeout : ℕ) × (check_deadline_and_get_timeout now deadline ≡ ok timeout))
        ↔ (now + minimum_attempt_window ≤ deadline)
  unfolding check_deadline_and_get_timeout
  check_deadline_iff now deadline =
      elim (Bool-cases (ltb (deadline - now) minimum_attempt_window)) [
        | inl short ↦ (λ h. ground arith, λ room. ground arith)
        | inr long ↦ (
          λ h. ground arith,
          λ room. (min (3 * settings.llm_timeout) (deadline - now), ground arith),
        )
      ]

  -- A response means that the client was called with a timeout whose three attempts end by the deadline, and that is
  -- not longer than the configured one.
  pub complete-IsWithin {ℓ} :
      {Response : Type ℓ}
      (client : (system_message user_message tenant_id : Text) (timeout : ℕ) → Result Response)
      (system_message user_message tenant_id : Text) (now deadline : ℕ) {response : Response}
      → complete client system_message user_message tenant_id now deadline ≡ ok response
      → (timeout : ℕ) × (client system_message user_message tenant_id timeout ≡ ok response)
        × (3 * now + 3 * timeout ≤ 3 * deadline)
        × (timeout ≤ 3 * settings.llm_timeout)
  unfolding complete
  complete-IsWithin client system_message user_message tenant_id now deadline h =
      let (timeout, handed, answered) =
        >>=-returned (check_deadline_and_get_timeout now deadline)
          (λ timeout. client system_message user_message tenant_id timeout) h in
      let (ends, short) = check_deadline-IsWithin now deadline handed in
      (timeout, answered, ends, short)
