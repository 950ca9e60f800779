-- ===== src/Tests/SensitivityTests.antt =====
-- Instances of the theorems on src/qfa/services/sensitivity.py and summarize.py: one record, an anonymizer that leaves it alone, and replies that are given.
use qualitative_feedback_ana.Prelude.{ℕ, ◌≡◌, refl, none, some, List, [], ◌∷◌, Text, codes, ascii}
use qualitative_feedback_ana.Domain.Errors.{ok}
use qualitative_feedback_ana.Coding.Reply.{ascii_same_letter}
use qualitative_feedback_ana.Analyze.Judge.{FailsAsJudge}
use qualitative_feedback_ana.Executor.{ExecutorSettings}
use qualitative_feedback_ana.Sensitivity.{
  Classification, SensitivityService, SensitivityRequest, classify, detect_sensitive_content,
}
use qualitative_feedback_ana.Sensitivity.Laws.{IsDetected, detect_sensitive_content-IsDetected}
use qualitative_feedback_ana.Summaries.Service.{SummarizeService, Summary, Flow, Moments}
use qualitative_feedback_ana.Summaries.Single.{summarize}
use qualitative_feedback_ana.Summaries.Scored.{IsScored, summarize-IsScored}
use qualitative_feedback_ana.Tests.Data.{form}
use qualitative_feedback_ana.Tests.CitationsTests.{is_word}
use qualitative_feedback_ana.Tests.CodingTests.{two_digit_floats}

abbrev settings : ExecutorSettings
settings = record { chars_per_token = 4; llm_timeout = 30000000; max_total_tokens = 1000 }

abbrev theft : Classification
theft = record {
  feedback_record_id = codes "1";
  sensitivity_types = codes "THEFT" ∷ [];
  explanation = codes "Blankets were stolen.";
}

abbrev detector : SensitivityService
detector = record {
  unicode = ascii;
  floats = two_digit_floats;
  same_letter = ascii_same_letter;
  settings = settings;
  detection_prompt = codes "Detect.";
  judge_prompt = codes "Judge.";
  anonymize = λ text. (text, []);
  deanonymize = λ text mapping. text;
  model_dump_json = λ results. codes "{}";
  model_validate_json = λ text. ok (theft ∷ []);
  llm = λ system_message user_message tenant_id timeout. ok (theft ∷ []);
  judge_llm =
      λ system_message user_message tenant_id timeout. ok (codes "SCORE: 0.90\nEXPLANATION: clear");
}

abbrev detection : SensitivityRequest
detection = record {
  feedback_record = form "F-1" "someone took our blankets" "2024-01-05";
  tenant_id = codes "t";
  deadline = 100000000;
  call_time = 0;
  judge_time = 1000000;
}

detected :
    detect_sensitive_content detector detection
    ≡ ok (record theft { feedback_record_id = codes "F-1" }, some 90)
unfolding detect_sensitive_content
detected = refl

judge_replies :
    (system_message user_message tenant_id : Text) (timeout : ℕ)
    → FailsAsJudge (detector.judge_llm system_message user_message tenant_id timeout)
judge_replies system_message user_message tenant_id timeout = tt

detect_sensitive_content-IsDetected_example :
    IsDetected detector detection
      (classify detector detection)
      (detect_sensitive_content detector detection)
detect_sensitive_content-IsDetected_example =
    detect_sensitive_content-IsDetected detector detection judge_replies

abbrev summary_service : SummarizeService
summary_service = record {
  unicode = ascii;
  is_word = is_word;
  floats = two_digit_floats;
  same_letter = ascii_same_letter;
  quality_score = λ c. c.faithfulness;
  settings = settings;
  min_detection_probability = 90;
  best_guess = λ text. some (95, codes "en");
  anonymize = λ text. (text, []);
  deanonymize = λ text mapping. text;
  judge_prompt = λ source summary. codes "Judge.";
  judge_user_message = codes "Go.";
  judge_complete = λ system_message user_message timeout.
      ok (codes "Faithfulness: 0.90\nCoverage: 0.80\nClarity: 0.70");
}

-- The LLM gives an id of its own, and no score.
abbrev given : Summary two_digit_floats
given = record {
  id = codes "1";
  title = codes "Blankets";
  summary = codes "Blankets were taken.";
  quality_score = none;
  components = none;
}

abbrev flow : Flow (List (Summary two_digit_floats))
flow = record {
  prompt = codes "Summarise.";
  complete = λ system_message user_message timeout. ok (given ∷ []);
  model_dump_json = λ summaries. codes "{}";
  model_validate_json = λ text. ok (given ∷ []);
}

abbrev moments : Moments
moments = record { deadline = 100000000; call_time = 0; judge_time = 1000000 }

abbrev scored : Summary two_digit_floats
scored = record given {
  id = codes "F-1";
  quality_score = some 90;
  components = some record { faithfulness = 90; coverage = 80; clarity = 70 };
}

summarized :
    summarize summary_service flow moments (form "F-1" "someone took our blankets" "2024-01-05")
    ≡ ok scored
unfolding summarize
summarized = refl

summarize-IsScored_example : IsScored summary_service flow moments (codes "F-1") scored
summarize-IsScored_example =
    summarize-IsScored summary_service flow moments
      (form "F-1" "someone took our blankets" "2024-01-05") summarized
