-- ===== src/Tracking/Recording.antt =====
-- src/qfa/adapters/tracking_llm.py: what is written, and that the caller does not notice.
use qualitative_feedback_ana.Prelude.{
  ℕ, zero, suc, ◌+◌, ◌≤◌, ◌<◌, ◌≡◌, refl, ap, subst, true, none, some, List, [], ◌∷◌, Bool-cases,
  inl, inr, replicate, arith, if◌then◌else◌,
}
use qualitative_feedback_ana.Domain.Errors.{Error, Result, ok, err}
use qualitative_feedback_ana.LlmClient.Complete.{LlmResponse}
use qualitative_feedback_ana.Tracking.{
  CallContext, LlmCallRecord, build_record, is_transient, attempt_record, record_with_retry,
  record_safely, complete_tracked,
}

module _ (answer : ℕ → Result (Unit {0})) (entry : LlmCallRecord) where
  attempt_record_repeats :
      (left attempt : ℕ)
      → (n : ℕ) × ((attempt_record answer (suc left) attempt entry).0 ≡ replicate (suc n) entry)
        × (n ≤ left)
  unfolding attempt_record
  attempt_record_repeats zero attempt = go (answer attempt)
    where
      go :
          (r : Result (Unit {0}))
          → (n : ℕ) × ((elim r as (λ _. List LlmCallRecord × Result (Unit {0})) [
            | ok done ↦ (entry ∷ [], ok done)
            | err e ↦ (entry ∷ [], err e)
          ]).0
              ≡ replicate (suc n) entry)
            × (n ≤ 0)
      go (ok done) = (0, refl, omega arith)
      go (err e) = (0, refl, omega arith)
  attempt_record_repeats (suc left) attempt =
      let (n, e, le) = attempt_record_repeats left (suc attempt) in go (answer attempt) _ n e le
    where
      go :
          (r : Result (Unit {0})) (rest : List LlmCallRecord × Result (Unit {0})) (n : ℕ)
          → rest.0 ≡ replicate (suc n) entry
          → n ≤ left
          → (n : ℕ) × ((elim r as (λ _. List LlmCallRecord × Result (Unit {0})) [
            | ok done ↦ (entry ∷ [], ok done)
            | err e ↦ if is_transient e then (entry ∷ rest.0, rest.1) else (entry ∷ [], err e)
          ]).0
              ≡ replicate (suc n) entry)
            × (n ≤ suc left)
      go (ok done) rest n e le = (0, refl, omega arith)
      go (err x) rest n e le = elim (Bool-cases (is_transient x)) [
        | inl again ↦ (suc n, rw (again, e) refl, omega arith)
        | inr final ↦ (0, rw final refl, omega arith)
      ]

  -- If a call of the repository succeeds and those before it failed in a transient way, then it is the last one.
  attempt_record_delivers :
      (left attempt later : ℕ)
      → later ≤ left
      → ((n : ℕ)
          → n < later
          → (e : Error) × (answer (attempt + n) ≡ err e) × (is_transient e ≡ true))
      → answer (attempt + later) ≡ ok tt
      → attempt_record answer (suc left) attempt entry ≡ (replicate (suc later) entry, ok tt)
  unfolding attempt_record
  attempt_record_delivers zero attempt zero le before success =
      rw (attempt_record, at_start success) refl
    where
      at_start : answer (attempt + 0) ≡ ok tt → answer attempt ≡ ok tt
      at_start e = subst (λ k. answer k ≡ ok tt) {x = attempt + 0} {y = attempt} (omega arith) e
  attempt_record_delivers (suc left) attempt zero le before success =
      rw (attempt_record, at_start success) refl
    where
      at_start : answer (attempt + 0) ≡ ok tt → answer attempt ≡ ok tt
      at_start e = subst (λ k. answer k ≡ ok tt) {x = attempt + 0} {y = attempt} (omega arith) e
  attempt_record_delivers (suc left) attempt (suc later) le before success =
      let (e, failed, transient) = before 0 (omega arith) in
      let now : answer attempt ≡ err e =
        subst (λ k. answer k ≡ err e) {x = attempt + 0} {y = attempt} (omega arith) failed in
      let rest =
        attempt_record_delivers left (suc attempt) later (omega arith)
          (λ n lt.
            let (x, raised, again) = before (suc n) (omega arith) in
            (
              x,
              subst (λ k. answer k ≡ err x) {x = attempt + suc n} {y = suc attempt + n}
                  (omega arith) raised,
              again,
            ))
          (subst (λ k. answer k ≡ ok tt) {x = attempt + suc later} {y = suc attempt + later}
            (omega arith) success) in
      rw (attempt_record, now, transient, rest) refl
  attempt_record_delivers zero attempt (suc later) le before success = absurd (omega arith)

-- The caller gets what the inner LLM gave, whatever the repository answers. In a call scope the repository is called from one to
-- three times, with the record of this outcome each time, and without a scope not at all.
pub complete_tracked-inner {ℓ} :
    {Structured : Type ℓ} (inner : Result (LlmResponse Structured)) (answer : ℕ → Result (Unit {0}))
    (started_at duration_ms : ℕ) (ctx : CallContext)
    → ((n : ℕ) × (n ≤ 2)
        × (complete_tracked inner answer started_at duration_ms (some ctx)
            ≡ (replicate (suc n) (build_record ctx started_at duration_ms inner), inner)))
      × (complete_tracked inner answer started_at duration_ms none ≡ ([], inner))
unfolding complete_tracked record_safely record_with_retry
complete_tracked-inner inner answer started_at duration_ms ctx =
    let (n, e, le) =
      attempt_record_repeats answer (build_record ctx started_at duration_ms inner) 2 0 in
    ((n, le, ap (λ written. (written, inner)) e), refl)

-- If one of the first three calls of the repository succeeds, and those before it fail because the database cannot be reached,
-- then it is the last call and it is the one that succeeds.
record_with_retry_delivers :
    (answer : ℕ → Result (Unit {0})) (entry : LlmCallRecord) (success : ℕ)
    → success ≤ 2
    → ((n : ℕ) → n < success → (e : Error) × (answer n ≡ err e) × (is_transient e ≡ true))
    → answer success ≡ ok tt
    → record_with_retry answer entry ≡ (replicate (suc success) entry, ok tt)
unfolding record_with_retry
record_with_retry_delivers answer entry success le before succeeded =
    attempt_record_delivers answer entry 2 0 success le
      (λ n lt. let (e, failed, transient) = before n lt in (e, at_zero n (err e) failed, transient))
      (at_zero success (ok tt) succeeded)
  where
    at_zero : (n : ℕ) (r : Result (Unit {0})) → answer n ≡ r → answer (0 + n) ≡ r
    at_zero n r e = subst (λ k. answer k ≡ r) {x = n} {y = 0 + n} (omega arith) e
