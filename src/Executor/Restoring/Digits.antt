-- ===== src/Executor/Restoring/Digits.antt =====
-- The four digits of an escape, read back, for src/qfa/services/llm_call_executor.py.
use qualitative_feedback_ana.Prelude.{
  ℕ, ◌+◌, ◌-◌, ◌*◌, ◌/◌, ◌%◌, ◌<◌, ◌≤◌, le→leb, ◌≡◌, refl, ap, ◌∙◌, true, false, ◌&&◌, Option, none,
  some, [], ◌∷◌, ◌++◌, Text, leb, arith,
}
use qualitative_feedback_ana.Executor.Restoring.{hex_digit}
use qualitative_feedback_ana.Executor.Restoring.Strings.{
  hex_value, number_of, read_four, read_pair, read_unicode, read_escape,
}

hex_value-hex_digit : (n : ℕ) → n < 16 → hex_value (hex_digit n) ≡ some n
unfolding hex_value hex_digit
hex_value-hex_digit n h = ground arith

number_of_digits :
    (w x y z : Option ℕ) (a b c d : ℕ)
    → w ≡ some a
    → x ≡ some b
    → y ≡ some c
    → z ≡ some d
    → number_of w x y z ≡ some (4096 * a + 256 * b + 16 * c + d)
unfolding number_of
number_of_digits w x y z a b c d ea eb ec ed = rw (ea, eb, ec, ed) refl

-- The four digits of a number below 65536.
digits_number :
    (n : ℕ)
    → n < 0x10000
    → number_of
        (hex_value (hex_digit (n / 4096 % 16)))
        (hex_value (hex_digit (n / 256 % 16)))
        (hex_value (hex_digit (n / 16 % 16)))
        (hex_value (hex_digit (n % 16)))
      ≡ some n
digits_number n h =
    let whole : 4096 * (n / 4096 % 16) + 256 * (n / 256 % 16) + 16 * (n / 16 % 16) + n % 16 ≡ n =
      omega arith in
    number_of_digits _ _ _ _ (n / 4096 % 16) (n / 256 % 16) (n / 16 % 16) (n % 16)
      (hex_value-hex_digit (n / 4096 % 16) (omega arith))
      (hex_value-hex_digit (n / 256 % 16) (omega arith))
      (hex_value-hex_digit (n / 16 % 16) (omega arith)) (hex_value-hex_digit (n % 16) (omega arith))
    ∙ ap some whole

-- The digits of a number, without `\u`.
abbrev pub digits : ℕ → Text
digits n =
    hex_digit (n / 4096 % 16)
    ∷ hex_digit (n / 256 % 16)
    ∷ hex_digit (n / 16 % 16)
    ∷ hex_digit (n % 16)
    ∷ []

read_four-digits : (n : ℕ) (s : Text) → n < 0x10000 → read_four (digits n ++ s) ≡ some (n, s)
unfolding read_four
read_four-digits n s h = go _ (digits_number n h)
  where
    go :
        (number : Option ℕ)
        → number ≡ some n
        → (elim number as (λ _. Option (ℕ × Text)) [ none ↦ none | some m ↦ some (m, s) ])
          ≡ some (n, s)
    go number e = rw e refl

in_range : (a n b : ℕ) → a ≤ n → n ≤ b → (leb a n && leb n b) ≡ true
in_range a n b l r = rw (le→leb a n l, le→leb n b r) refl

read_pair-digits :
    (high low : ℕ) (s : Text)
    → low < 0x400
    → read_pair high (92 ∷ b'u' ∷ digits (0xdc00 + low) ++ s)
      ≡ (0x10000 + 1024 * (high - 0xd800) + low, s)
unfolding read_pair
read_pair-digits high low s h =
    let four = read_four-digits (0xdc00 + low) s (omega arith) in
    let is_second = in_range 0xdc00 (0xdc00 + low) 0xdfff (omega arith) (omega arith) in
    let back : 0xdc00 + low - 0xdc00 ≡ low = omega arith in
    rw four (rw is_second (ap (λ m. (0x10000 + 1024 * (high - 0xd800) + m, s)) back))

-- A number that is no first surrogate stands for itself.
pub read_escape-digits :
    (n : ℕ) (s : Text)
    → n < 0x10000
    → (leb 0xd800 n && leb n 0xdbff) ≡ false
    → read_escape (b'u' ∷ digits n ++ s) ≡ some (n, s)
unfolding read_escape
read_escape-digits n s h single =
    ap read_unicode (read_four-digits n s h) ∙ rw (read_unicode, single) refl

-- Two surrogates.
pub read_escape_pair :
    (high low : ℕ) (s : Text)
    → high < 0x400
    → low < 0x400
    → read_escape (b'u' ∷ digits (0xd800 + high) ++ (92 ∷ b'u' ∷ digits (0xdc00 + low) ++ s))
      ≡ some (0x10000 + 1024 * high + low, s)
unfolding read_escape
read_escape_pair high low s h l =
    let is_first = in_range 0xd800 (0xd800 + high) 0xdbff (omega arith) (omega arith) in
    let back : 0xd800 + high - 0xd800 ≡ high = omega arith in
    ap read_unicode (read_four-digits (0xd800 + high) _ (omega arith))
    ∙ rw (read_unicode, is_first)
        (ap some
          (read_pair-digits (0xd800 + high) low s l ∙ ap (λ m. (0x10000 + 1024 * m + low, s)) back))
