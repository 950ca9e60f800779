-- ===== src/Summaries/Language.antt =====
-- `detect_source_language` of src/qfa/services/language.py. langdetect is a parameter: its best guess, or none for its exception.
use qualitative_feedback_ana.Prelude.{
  ℕ, Option, none, some, Text, length, ltb, take, if◌then◌else◌, Unicode, strip,
}
use qualitative_feedback_ana.Coding.Scores.{Floats, lt}

-- `_MIN_DETECTION_CHARS` and `_DETECTION_SAMPLE_CHARS`
abbrev pub min_detection_chars : ℕ
min_detection_chars = 20

abbrev pub detection_sample_chars : ℕ
detection_sample_chars = 2000

module _ (u : Unicode) (F : Floats) (min_detection_probability : F.Float)
    (best_guess : Text → Option (F.Float × Text)) where
  confident : Option (F.Float × Text) → Option Text
  confident none = none
  confident (some (probability, lang)) =
      if lt F probability min_detection_probability then none else some lang

  unfoldable pub detect_source_language : (text : Text) → Option Text
  unfolding confident
  detect_source_language text =
      let sample = strip u text in
      if ltb (length sample) min_detection_chars
      then none
      else confident (best_guess (take detection_sample_chars sample))
