-- ===== src/Prompts/Escape.antt =====
-- `escape_for_tag_envelope` of src/qfa/services/prompts.py, and the two functions of
-- `xml.sax.saxutils` that the envelopes are built with.
use qualitative_feedback_ana.Prelude.{
  ℕ, ◌≡◌, refl, sym, ap₂, ◌∙◌, ◌≢◌, Bool, true, ◌||◌, [], ◌∷◌, ◌++◌, Text, codes, arith, any, ◌==◌,
  if◌then◌else◌, count, count-append, Bool-cases, inl, inr, append_assoc,
}

-- `text.replace(c, new)` for a single character `c`.
unfoldable pub replace_char : ℕ → Text → Text → Text
replace_char c new [] = []
replace_char c new (d ∷ s) =
    if d == c then new ++ replace_char c new s else d ∷ replace_char c new s

-- `escape(text)`, without entities of the caller.
xml_escape : Text → Text
xml_escape s =
    replace_char b'<' (codes "&lt;")
      (replace_char b'>' (codes "&gt;") (replace_char b'&' (codes "&amp;") s))

unfoldable pub escape_for_tag_envelope : Text → Text
unfolding xml_escape replace_char
escape_for_tag_envelope s =
    replace_char 39 (codes "&apos;") (replace_char 34 (codes "&quot;") (xml_escape s))

-- `quoteattr`: white space is escaped too, and the quotes depend on what the text holds.
unfoldable pub xml_quoteattr : Text → Text
unfolding xml_escape replace_char
xml_quoteattr s =
    let escaped =
      replace_char 9 (codes "&#9;")
        (replace_char 13 (codes "&#13;") (replace_char 10 (codes "&#10;") (xml_escape s))) in
    if any (λ c. c == 34) escaped
    then if any (λ c. c == 39) escaped
      then 34 ∷ replace_char 34 (codes "&quot;") escaped ++ 34 ∷ []
      else 39 ∷ escaped ++ 39 ∷ []
    else 34 ∷ escaped ++ 34 ∷ []

-- What the five replacements do to one character.
escape_char : ℕ → Text
escape_char c =
    if c == b'&'
    then codes "&amp;"
    else if c == b'<'
    then codes "&lt;"
    else if c == b'>'
    then codes "&gt;"
    else if c == 34
    then codes "&quot;"
    else if c == 39
    then codes "&apos;"
    else c ∷ []

replace_char-append :
    (c : ℕ) (new s t : Text)
    → replace_char c new (s ++ t) ≡ replace_char c new s ++ replace_char c new t
unfolding replace_char
replace_char-append c new [] t = refl
replace_char-append c new (d ∷ s) t = elim (Bool-cases (d == c)) [
  | inl here ↦ rw (here, replace_char-append c new s t, append_assoc)
  | inr other ↦ rw (other, replace_char-append c new s t)
]

-- The replacements in sequence act on each character by itself.
escape-cons :
    (c : ℕ) (s : Text)
    → escape_for_tag_envelope (c ∷ s) ≡ escape_char c ++ escape_for_tag_envelope s
unfolding escape_for_tag_envelope escape_char
escape-cons c s = ground arith

-- The characters that can end a tag, an attribute or the text of an element.
abbrev pub is_markup : ℕ → Bool
is_markup c = c == b'<' || (c == b'>' || (c == 34 || c == 39))

count-escape_char : (m c : ℕ) → is_markup m ≡ true → count m (escape_char c) ≡ 0
unfolding escape_char
count-escape_char m c h = ground arith

-- No markup character is left in escaped text.
pub count-escape : (m : ℕ) (s : Text) → is_markup m ≡ true → count m (escape_for_tag_envelope s) ≡ 0
count-escape m [] h = unfold escape_for_tag_envelope in refl
count-escape m (c ∷ s) h = rw escape-cons (
    omega (
      arith,
      count-append m (escape_char c) (escape_for_tag_envelope s),
      count-escape_char m c h,
      count-escape m s h,
    ))

escape_nil : escape_for_tag_envelope [] ≡ []
unfolding escape_for_tag_envelope
escape_nil = refl

escape_char_prefix :
    (c d : ℕ) (x y : Text) → escape_char c ++ x ≡ escape_char d ++ y → (c ≡ d) × (x ≡ y)
unfolding escape_char
escape_char_prefix c d x y e = ground arith

escape_char_nonempty : (c : ℕ) (x : Text) → escape_char c ++ x ≢ []
unfolding escape_char
escape_char_nonempty c x e = ground arith

-- Escaping loses nothing: different texts stay different.
escape-injective : (s t : Text) → escape_for_tag_envelope s ≡ escape_for_tag_envelope t → s ≡ t
escape-injective [] [] e = refl
escape-injective [] (d ∷ t) e = absurd (
    escape_char_nonempty d (escape_for_tag_envelope t) (sym (escape-cons d t) ∙ sym e ∙ escape_nil))
escape-injective (c ∷ s) [] e =
    absurd
      (escape_char_nonempty c (escape_for_tag_envelope s) (sym (escape-cons c s) ∙ e ∙ escape_nil))
escape-injective (c ∷ s) (d ∷ t) e =
    let (same, rest) =
      escape_char_prefix c d (escape_for_tag_envelope s) (escape_for_tag_envelope t)
        (sym (escape-cons c s) ∙ e ∙ escape-cons d t) in
    ap₂ ◌∷◌ same (escape-injective s t rest)

-- A replacement counts nothing new of a character that the new text lacks.
count-replace_char :
    (m c : ℕ) (new s : Text)
    → count m new ≡ 0
    → count m (replace_char c new s) ≡ (if c == m then 0 else count m s)
unfolding replace_char
count-replace_char m c new [] h = ground arith
count-replace_char m c new (d ∷ s) h =
    ground (arith, count-append m new (replace_char c new s), count-replace_char m c new s h)

module _ (m : ℕ) (s : Text) (angle : (m == b'<' || m == b'>') ≡ true) where
  count-xml_escape : count m (xml_escape s) ≡ 0
  unfolding xml_escape
  count-xml_escape = ground (
    arith,
    count-replace_char m b'<' (codes "&lt;")
        (replace_char b'>' (codes "&gt;") (replace_char b'&' (codes "&amp;") s)),
    count-replace_char m b'>' (codes "&gt;") (replace_char b'&' (codes "&amp;") s),
  )

  count_space_entities :
      count m (
        replace_char 9
          (codes "&#9;")
          (replace_char 13 (codes "&#13;") (replace_char 10 (codes "&#10;") (xml_escape s))))
      ≡ 0
  count_space_entities = ground (
    arith,
    count-xml_escape,
    count-replace_char m 9 (codes "&#9;")
        (replace_char 13 (codes "&#13;") (replace_char 10 (codes "&#10;") (xml_escape s))),
    count-replace_char m 13 (codes "&#13;") (replace_char 10 (codes "&#10;") (xml_escape s)),
    count-replace_char m 10 (codes "&#10;") (xml_escape s),
  )

  -- A quoted attribute holds no angle bracket.
  pub count-xml_quoteattr : count m (xml_quoteattr s) ≡ 0
  unfolding xml_quoteattr
  count-xml_quoteattr =
      let escaped =
        replace_char 9 (codes "&#9;")
          (replace_char 13 (codes "&#13;") (replace_char 10 (codes "&#10;") (xml_escape s))) in
      ground (
        arith,
        count_space_entities,
        count-append m escaped (34 ∷ []),
        count-append m escaped (39 ∷ []),
        count-append m (replace_char 34 (codes "&quot;") escaped) (34 ∷ []),
        count-replace_char m 34 (codes "&quot;") escaped,
      )
