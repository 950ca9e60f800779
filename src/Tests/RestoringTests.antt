-- ===== src/Tests/RestoringTests.antt =====
-- Escaped values of src/qfa/services/llm_call_executor.py, and an instance of the theorem on them.
use qualitative_feedback_ana.Prelude.{
  ◌≡◌, refl, suc, some, [], ◌∷◌, ◌++◌, Text, codes, length, arith, inl, inr,
}
use qualitative_feedback_ana.Executor.Restoring.{hex_digit, json_escape}
use qualitative_feedback_ana.Executor.Restoring.Strings.{read_string}
use qualitative_feedback_ana.Executor.Restoring.Reading.{read_string-json_escape}

-- A quote, a line feed, an e with an acute accent and a smiley.
abbrev value : Text
value = 34 ∷ 10 ∷ 0xe9 ∷ 0x1f600 ∷ []

escaped_value : json_escape value ≡ codes "\\\"\\n\\u00e9\\ud83d\\ude00"
unfolding json_escape hex_digit
escaped_value = refl

read_string-json_escape_example :
    read_string (suc (length value)) (json_escape value ++ 34 ∷ codes "}") ≡ some (value, codes "}")
read_string-json_escape_example = read_string-json_escape value (codes "}") (
  inl (omega arith),
  (inl (omega arith), (inl (omega arith), (inr (omega arith, omega arith), tt))),
)
