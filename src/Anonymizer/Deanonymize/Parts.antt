-- ===== src/Anonymizer/Deanonymize/Parts.antt =====
-- What `deanonymize` of src/qfa/adapters/presidio_anonymizer.py restores in a text with placeholders.
use qualitative_feedback_ana.Prelude.{
  ℕ, zero, ◌-◌, ◌≡◌, refl, sym, ap, ◌∙◌, true, false, ◌&&◌, Option, none, some, List, [], ◌∷◌, ◌++◌,
  map, append_assoc, Text, text_eq, text_eq-eq, text_eq_refl, starts_with, length, ◌==◌, All,
  All-append, Bool-cases, inl, inr, subst, arith,
}
use qualitative_feedback_ana.Anonymizer.Placeholders.{lookup}
use qualitative_feedback_ana.Anonymizer.Deanonymize.{replace_from, replace, deanonymize}

-- A text with placeholders: a character, or a name between `<` and `>`.
pub data Part : Type 0 where
  plain : ℕ → Part
  held : (name : Text) → Part

abbrev pub in_brackets : (name rest : Text) → Text
in_brackets name rest = b'<' ∷ name ++ b'>' ∷ rest

abbrev pub redacted : List Part → Text
redacted [] = []
redacted (plain c ∷ parts) = c ∷ redacted parts
redacted (held name ∷ parts) = in_brackets name (redacted parts)

abbrev pub value_or_name : (name : Text) → Option Text → Text
value_or_name name none = in_brackets name []
value_or_name name (some value) = value

abbrev pub restored : (values : List (Text × Text)) → List Part → Text
restored values [] = []
restored values (plain c ∷ parts) = c ∷ restored values parts
restored values (held name ∷ parts) =
    value_or_name name (lookup name values) ++ restored values parts

-- Without `<`, and without brackets.
abbrev pub IsOpenFree : Text → Type 0
IsOpenFree s = All (λ c. (c == b'<') ≡ false) s

abbrev pub IsName : Text → Type 0
IsName s = All (λ c. ((c == b'<') ≡ false) × ((c == b'>') ≡ false)) s

abbrev pub IsReadable : Part → Type 0
IsReadable (plain c) = (c == b'<') ≡ false
IsReadable (held name) = IsName name

starts_with-in_brackets :
    (name other rest : Text)
    → IsName name
    → IsName other
    → starts_with (name ++ b'>' ∷ []) (other ++ b'>' ∷ rest) ≡ text_eq name other
starts_with-in_brackets [] [] rest h g = refl
starts_with-in_brackets [] (d ∷ other) rest h g = let apart = g.0.1 in ground arith
starts_with-in_brackets (c ∷ name) [] rest h g = let apart = h.0.1 in rw apart refl
starts_with-in_brackets (c ∷ name) (d ∷ other) rest h g =
    ap (λ b. (c == d) && b) (starts_with-in_brackets name other rest h.1 g.1)

module _ (old new : Text) where
  replace_from_skips :
      (front s : Text)
      → replace_from old new (length front) (front ++ s) ≡ replace_from old new zero s
  unfolding replace_from
  replace_from_skips [] s = refl
  replace_from_skips (c ∷ front) s = replace_from_skips front s

  replace_from_hit :
      (c : ℕ) (s : Text)
      → starts_with old (c ∷ s) ≡ true
      → replace_from old new zero (c ∷ s) ≡ new ++ replace_from old new (length old - 1) s
  unfolding replace_from
  replace_from_hit c s e = rw (replace_from, e) refl

  replace_from_miss :
      (c : ℕ) (s : Text)
      → starts_with old (c ∷ s) ≡ false
      → replace_from old new zero (c ∷ s) ≡ c ∷ replace_from old new zero s
  unfolding replace_from
  replace_from_miss c s e = rw (replace_from, e) refl

redacted-plain :
    (s : Text) (parts : List Part) → redacted (map plain s ++ parts) ≡ s ++ redacted parts
redacted-plain [] parts = refl
redacted-plain (c ∷ s) parts = ap (◌∷◌ c) (redacted-plain s parts)

restored-plain :
    (values : List (Text × Text)) (s : Text) (parts : List Part)
    → restored values (map plain s ++ parts) ≡ s ++ restored values parts
restored-plain values [] parts = refl
restored-plain values (c ∷ s) parts = ap (◌∷◌ c) (restored-plain values s parts)

All-plain : (s : Text) → IsOpenFree s → All IsReadable (map plain s)
All-plain [] h = tt
All-plain (c ∷ s) h = (h.0, All-plain s h.1)

module _ (name new : Text) where
  -- The parts after one replacement.
  put : List Part → List Part
  put [] = []
  put (plain c ∷ parts) = plain c ∷ put parts
  put (held other ∷ parts) = elim (text_eq name other) [
    | true ↦ map plain new ++ put parts
    | false ↦ held other ∷ put parts
  ]

  replaced : Text → Text
  replaced s = replace_from (in_brackets name []) new zero s

  replaced-plain : (c : ℕ) (s : Text) → (c == b'<') ≡ false → replaced (c ∷ s) ≡ c ∷ replaced s
  unfolding replaced
  replaced-plain c s h =
      let apart : (b'<' == c) ≡ false = ground arith in
      replace_from_miss (in_brackets name []) new c s (rw apart refl)

  replaced_name :
      (front s : Text) → IsName front → replaced (front ++ b'>' ∷ s) ≡ front ++ b'>' ∷ replaced s
  replaced_name [] s h = replaced-plain b'>' s refl
  replaced_name (c ∷ front) s h =
      replaced-plain c (front ++ b'>' ∷ s) h.0.0 ∙ ap (◌∷◌ c) (replaced_name front s h.1)

  replaced-hit : (s : Text) → IsName name → replaced (in_brackets name s) ≡ new ++ replaced s
  unfolding replaced
  replaced-hit s h =
      let found : starts_with (in_brackets name []) (in_brackets name s) ≡ true =
        starts_with-in_brackets name name s h h ∙ text_eq_refl name in
      let size : length (in_brackets name []) - 1 ≡ length (name ++ b'>' ∷ []) = omega arith in
      replace_from_hit (in_brackets name []) new b'<' (name ++ b'>' ∷ s) found
      ∙ ap (◌++◌ new) (
          ap (λ k. replace_from (in_brackets name []) new k (name ++ b'>' ∷ s)) size
          ∙ ap (replace_from (in_brackets name []) new (length (name ++ b'>' ∷ [])))
              (sym (append_assoc name (b'>' ∷ []) s))
          ∙ replace_from_skips (in_brackets name []) new (name ++ b'>' ∷ []) s)

  replaced-miss :
      (other s : Text)
      → IsName name
      → IsName other
      → text_eq name other ≡ false
      → replaced (in_brackets other s) ≡ in_brackets other (replaced s)
  unfolding replaced
  replaced-miss other s h g differ =
      replace_from_miss (in_brackets name []) new b'<' (other ++ b'>' ∷ s)
        (starts_with-in_brackets name other s h g ∙ differ)
      ∙ ap (◌∷◌ b'<') (replaced_name other s g)

  put_same :
      (other : Text) (parts : List Part)
      → text_eq name other ≡ true
      → put (held other ∷ parts) ≡ map plain new ++ put parts
  unfolding put
  put_same other parts e = rw (put, e) refl

  put_other :
      (other : Text) (parts : List Part)
      → text_eq name other ≡ false
      → put (held other ∷ parts) ≡ held other ∷ put parts
  unfolding put
  put_other other parts e = rw (put, e) refl

  replaced-redacted :
      (parts : List Part)
      → IsName name
      → All IsReadable parts
      → replaced (redacted parts) ≡ redacted (put parts)
  unfolding put replaced replace_from
  replaced-redacted [] h readable = refl
  replaced-redacted (plain c ∷ parts) h readable =
      replaced-plain c (redacted parts) readable.0
      ∙ ap (◌∷◌ c) (replaced-redacted parts h readable.1)
  replaced-redacted (held other ∷ parts) h readable =
      let rest = replaced-redacted parts h readable.1 in
      elim (Bool-cases (text_eq name other)) [
        | inl same ↦
            ap (λ n. replaced (in_brackets n (redacted parts))) (sym (text_eq-eq name other same))
            ∙ replaced-hit (redacted parts) h
            ∙ ap (◌++◌ new) rest
            ∙ sym (redacted-plain new (put parts))
            ∙ ap redacted (sym (put_same other parts same))
        | inr differ ↦
            replaced-miss other (redacted parts) h readable.0 differ
            ∙ ap (in_brackets other) rest
            ∙ ap redacted (sym (put_other other parts differ))
      ]

  put-IsReadable :
      (parts : List Part) → IsOpenFree new → All IsReadable parts → All IsReadable (put parts)
  unfolding put
  put-IsReadable [] h readable = tt
  put-IsReadable (plain c ∷ parts) h readable = (readable.0, put-IsReadable parts h readable.1)
  put-IsReadable (held other ∷ parts) h readable =
      let rest = put-IsReadable parts h readable.1 in
      elim (Bool-cases (text_eq name other)) [
        | inl same ↦
            subst (All IsReadable) (sym (put_same other parts same))
              (All-append IsReadable (map plain new) (put parts) (All-plain new h) rest)
        | inr differ ↦
            subst (All IsReadable) (sym (put_other other parts differ)) (readable.0, rest)
      ]

  restored-put :
      (values : List (Text × Text)) (parts : List Part)
      → restored values (put parts) ≡ restored ((name, new) ∷ values) parts
  unfolding put lookup
  restored-put values [] = refl
  restored-put values (plain c ∷ parts) = ap (◌∷◌ c) (restored-put values parts)
  restored-put values (held other ∷ parts) = elim (Bool-cases (text_eq name other)) [
    | inl same ↦
        ap (restored values) (put_same other parts same)
        ∙ restored-plain values new (put parts)
        ∙ ap (◌++◌ new) (restored-put values parts)
        ∙ rw (lookup, same) refl
    | inr differ ↦
        ap (restored values) (put_other other parts differ)
        ∙ ap (◌++◌ (value_or_name other (lookup other values))) (restored-put values parts)
        ∙ rw (lookup, differ) refl
  ]

restored_nothing : (parts : List Part) → redacted parts ≡ restored [] parts
unfolding lookup
restored_nothing [] = refl
restored_nothing (plain c ∷ parts) = ap (◌∷◌ c) (restored_nothing parts)
restored_nothing (held name ∷ parts) =
    ap (in_brackets name) (restored_nothing parts)
    ∙ ap (◌∷◌ b'<') (sym (append_assoc name (b'>' ∷ []) (restored [] parts)))

-- A text of characters other than `<` and of names in brackets is restored: each name that has a value gives way to the first that it has, and all
-- else stays, if the names have no brackets and the values no `<`.
pub deanonymize-redacted :
    (values : List (Text × Text)) (parts : List Part)
    → All (λ entry. IsName entry.0 × IsOpenFree entry.1) values
    → All IsReadable parts
    → deanonymize (redacted parts) (map (λ (name, value). (in_brackets name [], value)) values)
      ≡ restored values parts
unfolding deanonymize replace replaced
deanonymize-redacted [] parts h readable = restored_nothing parts
deanonymize-redacted ((name, value) ∷ values) parts h readable =
    ap (λ t. deanonymize t (map (λ (n, v). (in_brackets n [], v)) values))
      (replaced-redacted name value parts h.0.0 readable)
    ∙ deanonymize-redacted values (put name value parts) h.1
        (put-IsReadable name value parts h.0.1 readable)
    ∙ restored-put name value values parts
