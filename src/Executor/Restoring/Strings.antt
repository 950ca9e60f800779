-- ===== src/Executor/Restoring/Strings.antt =====
-- How JSON strings are read, for src/qfa/services/llm_call_executor.py: escapes, and two surrogates as one code point.
use qualitative_feedback_ana.Prelude.{
  ℕ, zero, suc, ◌+◌, ◌-◌, ◌*◌, true, false, ◌&&◌, Option, none, some, [], ◌∷◌, Text, ltb, leb, ◌==◌,
  if◌then◌else◌,
}

unfoldable pub hex_value : ℕ → Option ℕ
hex_value c =
    if leb 48 c && leb c 57
    then some (c - 48)
    else if leb 97 c && leb c 102
    then some (c - 87)
    else if leb 65 c && leb c 70
    then some (c - 55)
    else none

unfoldable pub number_of : Option ℕ → Option ℕ → Option ℕ → Option ℕ → Option ℕ
number_of (some a) (some b) (some c) (some d) = some (4096 * a + 256 * b + 16 * c + d)
number_of _ _ _ _ = none

-- Four digits and the rest.
unfoldable pub read_four : Text → Option (ℕ × Text)
read_four (a ∷ b ∷ c ∷ d ∷ s) =
    elim (number_of (hex_value a) (hex_value b) (hex_value c) (hex_value d)) [
      | none ↦ none
      | some n ↦ some (n, s)
    ]
read_four _ = none

-- A second surrogate makes one code point with a first one.
unfoldable pub read_pair : (high : ℕ) → Text → ℕ × Text
read_pair high (backslash ∷ letter ∷ s) =
    if backslash == 92 && letter == b'u'
    then elim (read_four s) [
      | none ↦ (high, backslash ∷ letter ∷ s)
      | some (low, rest) ↦
          if leb 0xdc00 low && leb low 0xdfff
          then (0x10000 + 1024 * (high - 0xd800) + (low - 0xdc00), rest)
          else (high, backslash ∷ letter ∷ s)
    ]
    else (high, backslash ∷ letter ∷ s)
read_pair high s = (high, s)

-- What follows `\u`.
unfoldable pub read_unicode : Option (ℕ × Text) → Option (ℕ × Text)
read_unicode none = none
read_unicode (some (n, s)) =
    if leb 0xd800 n && leb n 0xdbff then some (read_pair n s) else some (n, s)

-- What follows a backslash.
unfoldable pub read_escape : Text → Option (ℕ × Text)
unfolding read_unicode
read_escape [] = none
read_escape (c ∷ s) =
    if c == 34
    then some (34, s)
    else if c == 92
    then some (92, s)
    else if c == b'/'
    then some (b'/', s)
    else if c == b'n'
    then some (10, s)
    else if c == b'r'
    then some (13, s)
    else if c == b't'
    then some (9, s)
    else if c == b'f'
    then some (12, s)
    else if c == b'b'
    then some (8, s)
    else if c == b'u'
    then read_unicode (read_four s)
    else none

-- One code point of a string, and the rest. Control characters are refused.
unfoldable pub read_char : ℕ → Text → Option (ℕ × Text)
unfolding read_escape
read_char c s = if c == 92 then read_escape s else if ltb c 32 then none else some (c, s)

-- A string up to its closing quote, and the rest.
unfoldable pub read_string : (fuel : ℕ) → Text → Option (Text × Text)
unfolding read_char
read_string zero s = none
read_string (suc fuel) [] = none
read_string (suc fuel) (c ∷ s) = elim (c == 34) [
  | true ↦ some ([], s)
  | false ↦ elim (read_char c s) [
    | none ↦ none
    | some (first, rest) ↦ elim (read_string fuel rest) [
      | none ↦ none
      | some (others, after) ↦ some (first ∷ others, after)
    ]
  ]
]
