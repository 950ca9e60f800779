-- ===== src/Tests/DeanonymizeTests.antt =====
-- Restored texts of src/qfa/adapters/presidio_anonymizer.py, and an instance of the theorem on them.
use qualitative_feedback_ana.Prelude.{◌≡◌, refl, List, [], ◌∷◌, map, Text, codes}
use qualitative_feedback_ana.Anonymizer.Placeholders.{lookup}
use qualitative_feedback_ana.Anonymizer.Deanonymize.{replace, deanonymize}
use qualitative_feedback_ana.Anonymizer.Deanonymize.Parts.{
  Part, plain, held, in_brackets, redacted, restored, deanonymize-redacted,
}

abbrev values : List (Text × Text)
values = (codes "P_1", codes "Ada") ∷ (codes "P_10", codes "Bo") ∷ []

-- `<P_10>, <P_2>`
abbrev parts : List Part
parts = held (codes "P_10") ∷ plain b',' ∷ held (codes "P_2") ∷ []

-- Without overlaps, as Python does.
twice : replace (codes "aa") (codes "b") (codes "aaaca") ≡ codes "baca"
unfolding replace
twice = refl

at_each_place : replace [] (codes "-") (codes "ab") ≡ codes "-a-b-"
unfolding replace
at_each_place = refl

restored_parts : restored values parts ≡ codes "Bo,<P_2>"
unfolding lookup
restored_parts = refl

deanonymize-redacted_example :
    deanonymize (redacted parts) (map (λ (name, value). (in_brackets name [], value)) values)
    ≡ restored values parts
deanonymize-redacted_example =
    deanonymize-redacted values parts
      (
        (((refl, refl), ((refl, refl), ((refl, refl), tt))), (refl, (refl, (refl, tt)))),
        (
          (((refl, refl), ((refl, refl), ((refl, refl), ((refl, refl), tt)))), (refl, (refl, tt))),
          tt,
        ),
      )
      (
        ((refl, refl), ((refl, refl), ((refl, refl), ((refl, refl), tt)))),
        (refl, (((refl, refl), ((refl, refl), ((refl, refl), tt))), tt)),
      )
