-- ===== src/Tests/TrackingTests.antt =====
-- Instances of the theorems on src/qfa/adapters/tracking_llm.py: a database that answers the second call, and the call of the tests
-- of the client.
use qualitative_feedback_ana.Prelude.{
  ℕ, zero, suc, ◌≤◌, ◌<◌, ◌≡◌, true, refl, none, some, [], codes, ascii, arith, All, replicate,
}
use qualitative_feedback_ana.Domain.Errors.{Result, ok, err, operational_error, Error}
use qualitative_feedback_ana.Tracking.{
  CallContext, LlmCallRecord, assign_codes, status_ok, build_record, is_transient, complete_tracked,
}
use qualitative_feedback_ana.Tracking.Recording.{complete_tracked-inner}
use qualitative_feedback_ana.Tracking.Billing.{IsBilled, complete_tracked-complete_impl}
use qualitative_feedback_ana.Tests.LlmClientTests.{
  client, blocked_then_fine, as_text, clock, fine, exactly, no_int, answers_second,
}

abbrev context : CallContext
context = record { tenant_id = codes "t1"; operation = assign_codes; call_id = codes "c1" }

abbrev second_time : ℕ → Result (Unit {0})
second_time zero = err operational_error
second_time (suc n) = ok tt

abbrev entry : LlmCallRecord
entry = build_record context 5 120 (ok fine)

complete_tracked-inner_example :
    ((n : ℕ) × (n ≤ 2)
      × (complete_tracked (ok fine) second_time 5 120 (some context)
          ≡ (replicate (suc n) entry, ok fine)))
    × (complete_tracked (ok fine) second_time 5 120 none ≡ ([], ok fine))
complete_tracked-inner_example = complete_tracked-inner (ok fine) second_time 5 120 context

only_one_before : (n : ℕ) → n < 1 → (e : Error) × (second_time n ≡ err e) × (is_transient e ≡ true)
only_one_before zero h = (operational_error, refl, refl)
only_one_before (suc n) h = absurd (omega arith)

complete_tracked-complete_impl_example :
    All
      (λ entry. entry.status ≡ status_ok → IsBilled blocked_then_fine entry)
      (complete_tracked (ok fine) second_time 5 120 (some context)).0
complete_tracked-complete_impl_example =
    complete_tracked-complete_impl ascii exactly no_int client blocked_then_fine clock
      (codes "Be brief.") (codes "Why?") 2 as_text 7 (ok fine) second_time 5 120 (some context)
      answers_second
