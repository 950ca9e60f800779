-- ===== src/Tests/AnalyzeTests.antt =====
-- Instances of the theorems on the reduce phase of src/qfa/services/analyze.py: a budget that the message of two partials fits.
use qualitative_feedback_ana.Prelude.{◌≡◌, List, [], ◌∷◌, some, none, refl, Text, codes}
use qualitative_feedback_ana.Domain.Errors.{ok}
use qualitative_feedback_ana.Analyze.Reduce.{Reducer, Call, reduce_partials}
use qualitative_feedback_ana.Prompts.Escape.{escape_for_tag_envelope}
use qualitative_feedback_ana.Analyze.Reduce.Trends.{TableLast, reduce_partials-TableLast}

abbrev tight : Reducer
tight = record {
  settings = record { chars_per_token = 1; llm_timeout = 1; max_total_tokens = 210 };
  analyst_prompt = codes "why";
  system_message = [];
  answer = λ _ _. ok (codes "S");
}

abbrev parts : List Text
parts = codes "one" ∷ codes "two" ∷ codes "three" ∷ []

-- Three partials are reduced in pairs: the first two, then the third, then what came out of them, with the table.
abbrev three_calls : List Call
three_calls =
    (record { items = codes "S" ∷ codes "S" ∷ []; table = some (codes "t") })
    ∷ (record { items = codes "three" ∷ []; table = none })
    ∷ (record { items = codes "one" ∷ codes "two" ∷ []; table = none })
    ∷ []

three_calls_run :
    reduce_partials tight 3 parts (some (codes "t")) [] ≡ some (ok (codes "S"), three_calls)
unfolding reduce_partials escape_for_tag_envelope
three_calls_run = refl

reduce_partials-TableLast_example : TableLast (some (codes "t")) [] three_calls
reduce_partials-TableLast_example =
    reduce_partials-TableLast tight 3 parts (some (codes "t")) [] (codes "S") three_calls
      three_calls_run
