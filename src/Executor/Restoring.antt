-- ===== src/Executor/Restoring.antt =====
-- `deanonymize_json` of src/qfa/services/llm_call_executor.py, with `json.dumps` of a string: all but printable ASCII is escaped, and a code point above
-- 0xffff by two surrogates.
pub mod Strings
mod Digits
pub mod Reading
use qualitative_feedback_ana.Prelude.{
  ℕ, ◌+◌, ◌-◌, ◌/◌, ◌%◌, ◌&&◌, List, [], ◌∷◌, ◌++◌, map, flatten, take, drop, length, Text, codes,
  ltb, leb, ◌==◌, if◌then◌else◌,
}
use qualitative_feedback_ana.Executor.Redaction.{Mapping}

unfoldable pub hex_digit : ℕ → ℕ
hex_digit n = if ltb n 10 then 48 + n else 87 + n

-- `\u` and four digits.
unfoldable pub unicode_escape : ℕ → Text
unicode_escape n =
    92
    ∷ b'u'
    ∷ hex_digit (n / 4096 % 16)
    ∷ hex_digit (n / 256 % 16)
    ∷ hex_digit (n / 16 % 16)
    ∷ hex_digit (n % 16)
    ∷ []

unfoldable pub escape_json_char : ℕ → Text
unfolding unicode_escape
escape_json_char c =
    if c == 34
    then 92 ∷ 34 ∷ []
    else if c == 92
    then 92 ∷ 92 ∷ []
    else if c == 10
    then 92 ∷ b'n' ∷ []
    else if c == 13
    then 92 ∷ b'r' ∷ []
    else if c == 9
    then 92 ∷ b't' ∷ []
    else if c == 12
    then 92 ∷ b'f' ∷ []
    else if c == 8
    then 92 ∷ b'b' ∷ []
    else if leb 32 c && leb c 126
    then c ∷ []
    else if ltb c 0x10000
    then unicode_escape c
    else unicode_escape (0xd800 + (c - 0x10000) / 1024)
      ++ unicode_escape (0xdc00 + (c - 0x10000) % 1024)

unfoldable pub json_dumps : Text → Text
unfolding escape_json_char
json_dumps s = 34 ∷ (flatten (map escape_json_char s) ++ 34 ∷ [])

-- `json.dumps(value)[1:-1]`
unfoldable pub json_escape : Text → Text
unfolding json_dumps
json_escape value = take (length (json_dumps value) - 2) (drop 1 (json_dumps value))

unfoldable pub json_escape_mapping : Mapping → Mapping
unfolding json_escape
json_escape_mapping mapping = map (λ (placeholder, value). (placeholder, json_escape value)) mapping

-- `deanonymize` is that of the anonymizer.
unfoldable pub deanonymize_json :
    (deanonymize : Text → Mapping → Text) (payload : Text) → Mapping → Text
unfolding json_escape_mapping
deanonymize_json deanonymize payload mapping = deanonymize payload (json_escape_mapping mapping)
