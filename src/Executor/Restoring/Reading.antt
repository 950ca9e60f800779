-- ===== src/Executor/Restoring/Reading.antt =====
-- The escaped values of `_json_escape_mapping` in src/qfa/services/llm_call_executor.py, read as JSON strings are read.
use qualitative_feedback_ana.Prelude.{
  ℕ, zero, suc, ◌+◌, ◌-◌, ◌*◌, ◌/◌, ◌%◌, ◌<◌, ◌≤◌, ◌≡◌, ◌⊎◌, inl, inr, refl, sym, ap, ◌∙◌, true,
  false, ◌&&◌, some, [], ◌∷◌, ◌++◌, map, flatten, take, length, length-append, Text, All,
  append_assoc, ltb, leb, ◌==◌, if◌then◌else◌, Bool-cases, arith, ltb→lt, ==_iff, subst,
}
use qualitative_feedback_ana.Executor.Restoring.Strings.{read_char, read_string}
use qualitative_feedback_ana.Executor.Restoring.Digits.{
  digits, read_escape-digits, read_escape_pair,
}
use qualitative_feedback_ana.Executor.Restoring.{unicode_escape, escape_json_char, json_escape}

-- A code point that is no surrogate.
abbrev pub IsScalar : ℕ → Type 0
IsScalar c = (c < 0xd800) ⊎ ((0xdfff < c) × (c < 0x110000))

-- A character is read back. Its first code point is no quote.
abbrev ReadsBack : ℕ → Text → Type 0
ReadsBack c s =
    (h : ℕ) × (t : Text) × (escape_json_char c ++ s ≡ h ∷ t)
    × ((h == 34) ≡ false)
    × (read_char h t ≡ some (c, s))

-- A character without an escape of its own.
unnamed_escape : ℕ → Text
unnamed_escape c =
    if leb 32 c && leb c 126
    then c ∷ []
    else if ltb c 0x10000
    then unicode_escape c
    else unicode_escape (0xd800 + (c - 0x10000) / 1024)
      ++ unicode_escape (0xdc00 + (c - 0x10000) % 1024)

unnamed_reads :
    (c : ℕ) (s : Text)
    → IsScalar c
    → (c == 34) ≡ false
    → (c == 92) ≡ false
    → escape_json_char c ≡ unnamed_escape c
    → ReadsBack c s
unfolding unnamed_escape unicode_escape read_char
unnamed_reads c s scalar not_quote not_backslash e = elim (Bool-cases (leb 32 c && leb c 126)) [
  | inl printable ↦
      let no_control : ltb c 32 ≡ false = ground arith in
      (c, s, ap (λ t. t ++ s) e ∙ rw printable refl, not_quote, rw (not_backslash, no_control) refl)
  | inr other ↦ elim (Bool-cases (ltb c 0x10000)) [
    | inl small ↦
        let single : (leb 0xd800 c && leb c 0xdbff) ≡ false = ground arith in
        (
          92,
          b'u' ∷ digits c ++ s,
          ap (λ t. t ++ s) e ∙ rw (other, small) refl,
          refl,
          read_escape-digits c s (ltb→lt c 0x10000 small) single,
        )
    | inr large ↦
        let high = (c - 0x10000) / 1024 in
        let low = (c - 0x10000) % 1024 in
        let above : 0x10000 ≤ c = ground arith in
        let below : c < 0x110000 = omega arith in
        let whole : 0x10000 + 1024 * high + low ≡ c = omega arith in
        (
          92,
          b'u' ∷ digits (0xd800 + high) ++ (92 ∷ b'u' ∷ digits (0xdc00 + low) ++ s),
          ap (λ t. t ++ s) e ∙ rw (other, large) refl,
          refl,
          read_escape_pair high low s (omega arith) (omega arith) ∙ ap (λ m. some (m, s)) whole,
        )
  ]
]

reads_at : (c d : ℕ) (s : Text) → (c == d) ≡ true → ReadsBack d s → ReadsBack c s
reads_at c d s e r = subst (λ n. ReadsBack n s) (sym ((==_iff c d).0 e)) r

read_char-escape : (c : ℕ) (s : Text) → IsScalar c → ReadsBack c s
unfolding escape_json_char read_char
read_char-escape c s scalar = elim (Bool-cases (c == 34)) [
  | inl e ↦ reads_at c 34 s e (92, 34 ∷ s, refl, refl, refl)
  | inr n34 ↦ elim (Bool-cases (c == 92)) [
    | inl e ↦ reads_at c 92 s e (92, 92 ∷ s, refl, refl, refl)
    | inr n92 ↦ elim (Bool-cases (c == 10)) [
      | inl e ↦ reads_at c 10 s e (92, b'n' ∷ s, refl, refl, refl)
      | inr n10 ↦ elim (Bool-cases (c == 13)) [
        | inl e ↦ reads_at c 13 s e (92, b'r' ∷ s, refl, refl, refl)
        | inr n13 ↦ elim (Bool-cases (c == 9)) [
          | inl e ↦ reads_at c 9 s e (92, b't' ∷ s, refl, refl, refl)
          | inr n9 ↦ elim (Bool-cases (c == 12)) [
            | inl e ↦ reads_at c 12 s e (92, b'f' ∷ s, refl, refl, refl)
            | inr n12 ↦ elim (Bool-cases (c == 8)) [
              | inl e ↦ reads_at c 8 s e (92, b'b' ∷ s, refl, refl, refl)
              | inr n8 ↦
                  unnamed_reads c s scalar n34 n92
                    (unfold unnamed_escape in rw (n34, n92, n10, n13, n9, n12, n8) refl)
            ]
          ]
        ]
      ]
    ]
  ]
]

escaped : Text → Text
escaped s = flatten (map escape_json_char s)

read_string-escaped :
    (fuel : ℕ) (value rest : Text)
    → length value < fuel
    → All IsScalar value
    → read_string fuel (escaped value ++ 34 ∷ rest) ≡ some (value, rest)
unfolding read_string escaped
read_string-escaped zero value rest h scalars = elim h [ ]
read_string-escaped (suc fuel) [] rest h scalars = refl
read_string-escaped (suc fuel) (c ∷ value) rest h scalars =
    let (first, more, split, no_quote, read) =
      read_char-escape c (escaped value ++ 34 ∷ rest) scalars.0 in
    let others = read_string-escaped fuel value rest (omega arith) scalars.1 in
    let whole = append_assoc (escape_json_char c) (escaped value) (34 ∷ rest) ∙ split in
    ap (read_string (suc fuel)) whole
    ∙ rw (read_string, no_quote) (rw (read_char, read) (rw others refl))

take_front : (x y : Text) → take (length x) (x ++ y) ≡ x
take_front [] y = refl
take_front (c ∷ x) y = ap (◌∷◌ c) (take_front x y)

json_escape-escaped : (value : Text) → json_escape value ≡ escaped value
unfolding json_escape escaped
json_escape-escaped value =
    let inner = flatten (map escape_json_char value) in
    let size : suc (length (inner ++ 34 ∷ [])) - 2 ≡ length inner =
      omega (arith, length-append {0} inner (34 ∷ [])) in
    ap (λ n. take n (inner ++ 34 ∷ [])) size ∙ take_front inner (34 ∷ [])

-- Between quotes, an escaped value is read as the value, whatever follows the closing quote, if no code point of it is a surrogate.
pub read_string-json_escape :
    (value rest : Text)
    → All IsScalar value
    → read_string (suc (length value)) (json_escape value ++ 34 ∷ rest) ≡ some (value, rest)
read_string-json_escape value rest scalars =
    ap (λ t. read_string (suc (length value)) (t ++ 34 ∷ rest)) (json_escape-escaped value)
    ∙ read_string-escaped (suc (length value)) value rest (omega arith) scalars
