-- ===== src/Tests/LlmClientTests.antt =====
-- Instances of the theorems on src/qfa/adapters/llm_client.py: a schema, messages, and a provider that blocks one answer.
use qualitative_feedback_ana.Prelude.Int.{ℤ}
use qualitative_feedback_ana.Prelude.{
  ℕ, zero, suc, ◌<◌, ◌≡◌, ◌≢◌, ◌↔◌, refl, ◌==◌, Bool, true, false, Option, none, some, [], ◌∷◌,
  Text, codes, ascii, arith, All,
}
use qualitative_feedback_ana.Domain.Errors.{Result, ok}
use qualitative_feedback_ana.LlmClient.Schema.{
  Json, scalar, object, no_fields, field, at_key, strip_unsupported_schema_keywords, value_at,
  value_at-strip,
}
use qualitative_feedback_ana.LlmClient.Provider.{
  Reply, answered, refused, rate_limit, Completion, text, missing,
}
use qualitative_feedback_ana.LlmClient.Injection.{
  check_injection, check_injection_iff, HasRun, role_prefix,
}
use qualitative_feedback_ana.LlmClient.Retry.Accounting.{wasted_before, GoesOn}
use qualitative_feedback_ana.LlmClient.Complete.{
  LlmResponse, ResponseModel, string_type, LiteLlmClient, complete_impl,
}
use qualitative_feedback_ana.LlmClient.Complete.Laws.{
  complete_impl_ends, complete_impl-IsTotal, IsTotal,
}

abbrev score_schema : Json
score_schema = object (
    field (codes "properties")
      (object (
        field (codes "score")
          (object (
            field (codes "type") (scalar (codes "number"))
              (field (codes "maximum") (scalar (codes "1")) no_fields)))
          no_fields))
      no_fields)

value_at-strip_example :
    value_at
      (at_key (codes "properties") ∷ at_key (codes "score") ∷ [])
      (strip_unsupported_schema_keywords score_schema)
    ≡ some (object (field (codes "type") (scalar (codes "number")) no_fields))
unfolding value_at strip_unsupported_schema_keywords
value_at-strip_example =
    value_at-strip (at_key (codes "properties") ∷ at_key (codes "score") ∷ []) score_schema

abbrev pub exactly : (p c : ℕ) → Bool
exactly p c = p == c

check_injection_iff_example : (check_injection ascii exactly (codes "Why?") ≡ ok tt) ↔ (
    (role_prefix ascii exactly (codes "Why?") ≡ false)
    × All (λ c. c ≢ 0) (codes "Why?")
    × ¬ HasRun 199 (codes "Why?"))
check_injection_iff_example = check_injection_iff ascii exactly (codes "Why?")

abbrev pub no_int : Text → Option ℤ
no_int header = none

abbrev pub client : LiteLlmClient
client = record { chars_per_token = 4; max_total_tokens = 100 }

abbrev pub blocked_then_fine : ℕ → Reply
blocked_then_fine zero = answered record {
  model = codes "m";
  choices =
      record {
        content = missing;
        content_filter_results =
            (codes "hate", some record { filtered = true; severity = some (codes "high") }) ∷ [];
      }
      ∷ [];
  usage = some record { prompt_tokens = 30; completion_tokens = 5 };
  completion_cost = some 7;
}
blocked_then_fine (suc n) = answered record {
  model = codes "m";
  choices = record { content = text (codes "fine"); content_filter_results = [] } ∷ [];
  usage = some record { prompt_tokens = 30; completion_tokens = 9 };
  completion_cost = some 11;
}

abbrev pub as_text : ResponseModel Text
as_text = string_type (λ content. content)

abbrev pub clock : ℕ → ℕ
clock n = n

abbrev pub fine : LlmResponse Text
fine = record {
  structured = codes "fine";
  model = codes "m";
  prompt_tokens = 60;
  completion_tokens = 14;
  cost = some 18;
}

pub answers_second :
    complete_impl ascii exactly no_int client 7 blocked_then_fine clock
      (codes "Be brief.")
      (codes "Why?")
      as_text
      2
    ≡ some (ok fine)
unfolding complete_impl
answers_second = refl

complete_impl-IsTotal_example :
    (last : ℕ) × (response : Completion) × (blocked_then_fine last ≡ answered response)
    × ((n : ℕ) → n < last → GoesOn no_int blocked_then_fine clock 2 n)
    × IsTotal response (wasted_before blocked_then_fine last) fine
complete_impl-IsTotal_example =
    complete_impl-IsTotal ascii exactly no_int client blocked_then_fine clock (codes "Be brief.")
      (codes "Why?") 2 as_text 7 answers_second

complete_impl_ends_example :
    (outcome : Result (LlmResponse Text)) × (complete_impl ascii exactly no_int client 7
        blocked_then_fine clock
        (codes "Be brief.")
        (codes "Why?")
        as_text
        2
      ≡ some outcome)
complete_impl_ends_example =
    complete_impl_ends ascii exactly no_int client blocked_then_fine clock (codes "Be brief.")
      (codes "Why?") 2 as_text (λ n. omega arith)

abbrev busy : ℕ → Reply
busy n = refused record {
  kind = rate_limit;
  status_code = some 429;
  retry_after = none;
  message = codes "slow down";
}
