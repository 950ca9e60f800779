-- ===== src/Tests/ApiTests.antt =====
-- Instances of the theorems on src/qfa/api/app.py, and some responses.
use qualitative_feedback_ana.Prelude.{◌≡◌, refl, some, none, codes}
use qualitative_feedback_ana.Prelude.Int.{pos, negsuc}
use qualitative_feedback_ana.Domain.Errors.{llm_rate_limit}
use qualitative_feedback_ana.Api.Handlers.{
  Raised, raised, http_exception, respond, IsAnswered, respond_lem,
}
use qualitative_feedback_ana.Api.Validation.{keyed, json_decode_hint, json_decode_fallback_hint}

a_day :
    (respond (codes "r1") (raised (llm_rate_limit none (some (pos 86400))))).retry_after ≡ some 3600
unfolding respond
a_day = refl

in_the_past :
    (respond (codes "r1") (raised (llm_rate_limit none (some (negsuc 4))))).retry_after ≡ some 30
unfolding respond
in_the_past = refl

no_hint : json_decode_hint (codes "Extra data") ≡ json_decode_fallback_hint
unfolding json_decode_hint
no_hint = refl

abbrev late : Raised
late = raised (llm_rate_limit none (some (pos 86400)))

respond_lem_example :
    ((respond (codes "r1") late).error.request_id ≡ codes "r1")
    × IsAnswered late (respond (codes "r1") late)
respond_lem_example = respond_lem (codes "r1") late

-- The limits of a usage report.
unzoned :
    (respond (codes "r1") (
      http_exception 422 (
        keyed
          (some (codes "validation_error"))
          (some (codes "'from' must be timezone-aware"))))).status_code
    ≡ 422
unfolding respond
unzoned = refl
