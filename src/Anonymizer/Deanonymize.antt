-- ===== src/Anonymizer/Deanonymize.antt =====
-- `deanonymize` of src/qfa/adapters/presidio_anonymizer.py: the placeholders are replaced one after the other, in the order of the mapping.
pub mod Parts
use qualitative_feedback_ana.Prelude.{
  ℕ, zero, suc, ◌-◌, ◌≡◌, refl, sym, ap, ◌∙◌, Bool, true, false, ◌&&◌, Option, none, some, List, [],
  ◌∷◌, ◌++◌, map, append_assoc, Text, text_eq, text_eq-eq, text_eq_refl, starts_with, length,
  length-append, ◌==◌, All, All-append, Bool-cases, inl, inr, subst, arith, if◌then◌else◌,
}
use qualitative_feedback_ana.Anonymizer.Placeholders.{lookup}

-- From left to right; `skip` characters of a match are left.
unfoldable pub replace_from : (old new : Text) (skip : ℕ) → Text → Text
replace_from old new skip [] = []
replace_from old new (suc skip) (c ∷ s) = replace_from old new skip s
replace_from old new zero (c ∷ s) = elim (starts_with old (c ∷ s)) [
  | true ↦ new ++ replace_from old new (length old - 1) s
  | false ↦ c ∷ replace_from old new zero s
]

between : (new : Text) → Text → Text
between new [] = new
between new (c ∷ s) = new ++ c ∷ between new s

-- `s.replace(old, new)`
unfoldable pub replace : (old new s : Text) → Text
unfolding replace_from between
replace [] new s = between new s
replace (o ∷ old) new s = replace_from (o ∷ old) new zero s

unfoldable pub deanonymize : (text : Text) (mapping : List (Text × Text)) → Text
unfolding replace
deanonymize text [] = text
deanonymize text ((placeholder, original) ∷ mapping) =
    deanonymize (replace placeholder original text) mapping
