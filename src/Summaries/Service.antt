-- ===== src/Summaries/Service.antt =====
-- What the summaries of src/qfa/services/summarize.py share: the parameters, and the judge, whose errors are not caught.
use qualitative_feedback_ana.Prelude.{ℕ, Bool, Option, Text, Unicode}
use qualitative_feedback_ana.Domain.Errors.{Result, ◌>>=◌}
use qualitative_feedback_ana.Executor.{ExecutorSettings, check_deadline_and_get_timeout}
use qualitative_feedback_ana.Executor.Redaction.{Mapping}
use qualitative_feedback_ana.Coding.Scores.{Floats}
use qualitative_feedback_ana.Analyze.Judge.{JudgeComponents, parse_judge_components}
use qualitative_feedback_ana.Analyze.SinglePass.{Complete}

-- The anonymizer, the connection of the judge with its prompt, langdetect and the settings.
pub record SummarizeService : Type 1 where
  pub unicode : Unicode
  pub is_word : ℕ → Bool
  pub floats : Floats
  pub same_letter : ℕ → ℕ → Bool
  pub quality_score : JudgeComponents floats → floats.Float
  pub settings : ExecutorSettings
  pub min_detection_probability : floats.Float
  pub best_guess : Text → Option (floats.Float × Text)
  pub anonymize : Text → Text × Mapping
  pub deanonymize : Text → Mapping → Text
  pub judge_prompt : (source_text summary : Text) → Text
  pub judge_user_message : Text
  pub judge_complete : Complete

-- The models of the replies, with pydantic's JSON: a title and a summary, with the score and its components.
pub record Summary (F : Floats) : Type 0 where
  pub id : Text
  pub title : Text
  pub summary : Text
  pub quality_score : Option F.Float
  pub components : Option (JudgeComponents F)

-- One kind of summary: the system prompt, the connection with its response model, and the JSON of that model.
pub record Flow (Structured : Type 0) : Type 0 where
  pub prompt : Text
  pub complete : (system_message user_message : Text) (timeout : ℕ) → Result Structured
  pub model_dump_json : Structured → Text
  pub model_validate_json : Text → Result Structured

-- The deadline, and the moments of the two calls.
pub record Moments : Type 0 where
  pub deadline : ℕ
  pub call_time : ℕ
  pub judge_time : ℕ

module _ (s : SummarizeService) where
  unfoldable pub judge_summary :
      Moments → (source_text summary : Text) → Result (JudgeComponents s.floats)
  unfolding check_deadline_and_get_timeout parse_judge_components
  judge_summary moments source_text summary =
      check_deadline_and_get_timeout s.settings moments.judge_time moments.deadline >>= λ timeout.
      s.judge_complete (s.judge_prompt source_text summary) s.judge_user_message timeout
      >>= parse_judge_components s.floats s.unicode s.same_letter
