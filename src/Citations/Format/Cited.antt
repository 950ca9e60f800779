-- ===== src/Citations/Format/Cited.antt =====
-- What a citation line of src/qfa/services/record_links.py has: its ids and how they are counted.
use qualitative_feedback_ana.Prelude.{
  ℕ, suc, ◌+◌, ◌≡◌, ◌≢◌, ◌↔◌, refl, sym, ap, subst, Bool, true, false, not, Option, none, some,
  List, [], ◌∷◌, Text, text_eq, text_eq-eq, text_eq_iff, length, any, all, keep, Unicode, All,
  All-map, Among, Distinct, Bool-cases, some-injective, inl, inr, if◌then◌else◌, arith,
}
use qualitative_feedback_ana.Citations.Lines.{CitationMatch, match_citation_line}
use qualitative_feedback_ana.Citations.Format.{
  is_in, first_of_each, is_known, CitationLine, is_single_token, items_of, ids_of, citation_of,
  parse_citation_line, is_kind, count_by_kind,
}

is_in-Among : (x : Text) (xs : List Text) → (is_in x xs ≡ true) ↔ Among x xs
is_in-Among x [] = (λ h. cc h, λ m. absurd m)
is_in-Among x (y ∷ xs) = elim (Bool-cases (text_eq x y)) [
  | inl same ↦ (λ h. inl (text_eq-eq x y same), λ m. rw same refl)
  | inr other ↦ (
    λ h. inr ((is_in-Among x xs).0 (rw other at h)),
    λ m. elim m [
      | inl same ↦ let equal = (text_eq_iff x y).1 same in cc
      | inr later ↦ rw other ((is_in-Among x xs).1 later)
    ],
  )
]

first_of_each_known :
    (x : Text) (seen items : List Text)
    → is_in x seen ≡ true
    → first_of_each seen (x ∷ items) ≡ first_of_each seen items
unfolding first_of_each
first_of_each_known x seen items known = rw (first_of_each, known) refl

first_of_each_new :
    (x : Text) (seen items : List Text)
    → is_in x seen ≡ false
    → first_of_each seen (x ∷ items) ≡ x ∷ first_of_each (x ∷ seen) items
unfolding first_of_each
first_of_each_new x seen items new = rw (first_of_each, new) refl

-- What is not among a longer list.
not_head :
    (x y : Text) (seen : List Text) → is_in y (x ∷ seen) ≡ false → (x ≢ y) × (is_in y seen ≡ false)
not_head x y seen h = elim (Bool-cases (text_eq y x)) [
  | inl same ↦ cc (rw same at h)
  | inr other ↦ (λ e. let equal = (text_eq_iff y x).1 (sym e) in cc, rw other at h)
]

-- The items that were not seen, each once.
first_of_each-Distinct :
    (seen items : List Text)
    → All (λ x. is_in x seen ≡ false) (first_of_each seen items)
      × Distinct (first_of_each seen items)
unfolding first_of_each
first_of_each-Distinct seen [] = (tt, tt)
first_of_each-Distinct seen (x ∷ items) = elim (Bool-cases (is_in x seen)) [
  | inl known ↦
      subst (λ ids. All (λ y. is_in y seen ≡ false) ids × Distinct ids)
        (sym (first_of_each_known x seen items known)) (first_of_each-Distinct seen items)
  | inr new ↦
      let (apart, distinct) = first_of_each-Distinct (x ∷ seen) items in
      subst (λ ids. All (λ y. is_in y seen ≡ false) ids × Distinct ids)
        (sym (first_of_each_new x seen items new))
        (
          (new, All-map (λ y h. (not_head x y seen h).1) _ apart),
          (All-map (λ y h. (not_head x y seen h).0) _ apart, distinct),
        )
]

first_of_each-Among :
    (x : Text) (seen items : List Text)
    → is_in x seen ≡ false
    → Among x items ↔ Among x (first_of_each seen items)
unfolding first_of_each
first_of_each-Among x seen [] h = (λ m. m, λ m. m)
first_of_each-Among x seen (y ∷ items) h = elim (Bool-cases (is_in y seen)) [
  | inl known ↦
      let (into, back) = first_of_each-Among x seen items h in
      subst (λ ids. Among x (y ∷ items) ↔ Among x ids)
        (sym (first_of_each_known y seen items known))
        (
          λ m. elim m [
            | inl same ↦ absurd (cc (ap (λ z. is_in z seen) same))
            | inr later ↦ into later
          ],
          λ m. inr (back m),
        )
  | inr new ↦
      subst (λ ids. Among x (y ∷ items) ↔ Among x ids) (sym (first_of_each_new y seen items new))
        (elim (Bool-cases (text_eq x y)) [
          | inl same ↦ (λ m. inl (text_eq-eq x y same), λ m. inl (text_eq-eq x y same))
          | inr other ↦
              let (into, back) = first_of_each-Among x (y ∷ seen) items (rw other h) in
              (
                λ m. elim m [ inl e ↦ inl e | inr later ↦ inr (into later) ],
                λ m. elim m [ inl e ↦ inl e | inr later ↦ inr (back later) ],
              )
        ])
]

module _ (kinds : Text → Option Bool) where
  -- The three counts.
  kinds_add :
      (ids : List Text)
      → length (keep (λ id. is_kind true (kinds id)) ids)
          + length (keep (λ id. is_kind false (kinds id)) ids)
          + length (keep (λ id. not (is_known (kinds id))) ids)
        ≡ length ids
  kinds_add [] = refl
  kinds_add (id ∷ ids) = go (kinds id) (kinds_add ids)
    where
      go :
          (kind : Option Bool)
          → length (keep (λ i. is_kind true (kinds i)) ids)
              + length (keep (λ i. is_kind false (kinds i)) ids)
              + length (keep (λ i. not (is_known (kinds i))) ids)
            ≡ length ids
          → length (
                if is_kind true kind
                then id ∷ keep (λ i. is_kind true (kinds i)) ids
                else keep (λ i. is_kind true (kinds i)) ids)
              + length (
                  if is_kind false kind
                  then id ∷ keep (λ i. is_kind false (kinds i)) ids
                  else keep (λ i. is_kind false (kinds i)) ids)
              + length (
                  if not (is_known kind)
                  then id ∷ keep (λ i. not (is_known (kinds i))) ids
                  else keep (λ i. not (is_known (kinds i))) ids)
            ≡ suc (length ids)
      go none rest = omega arith
      go (some true) rest = omega arith
      go (some false) rest = omega arith

  -- The third count is that of the ids without a record.
  count_by_kind_unmatched :
      (ids : List Text)
      → (count_by_kind ids kinds).2 ≡ length (keep (λ id. not (is_known (kinds id))) ids)
  unfolding count_by_kind
  count_by_kind_unmatched ids = omega (arith, kinds_add ids)

  any-Among :
      (ids : List Text)
      → any (λ id. is_known (kinds id)) ids ≡ true
      → (id : Text) × Among id ids × (is_known (kinds id) ≡ true)
  any-Among [] h = cc h
  any-Among (id ∷ ids) h = elim (Bool-cases (is_known (kinds id))) [
    | inl known ↦ (id, inl refl, known)
    | inr unknown ↦ let (other, m, known) = any-Among ids (rw unknown at h) in (other, inr m, known)
  ]

-- Each item of the line once, with one of a record, and the ids without a record counted.
abbrev pub IsCited : Unicode → (kinds : Text → Option Bool) → CitationLine → Type 0
IsCited u kinds citation =
    Distinct citation.ids
    × ((id : Text) → Among id (items_of u citation.rest) ↔ Among id citation.ids)
    × (all (is_single_token u) citation.ids ≡ true)
    × ((id : Text) × Among id citation.ids × (is_known (kinds id) ≡ true))
    × ((count_by_kind citation.ids kinds).2
        ≡ length (keep (λ id. not (is_known (kinds id))) citation.ids))

module _ (u : Unicode) (kinds : Text → Option Bool) where
  citation_of-IsCited :
      (m : CitationMatch) {citation : CitationLine}
      → citation_of u kinds m (ids_of u m.ids) ≡ some citation
      → IsCited u kinds citation
  unfolding citation_of ids_of
  citation_of-IsCited m {citation} h =
      elim (Bool-cases (all (is_single_token u) (ids_of u m.ids))) [
        | inr spaced ↦ cc (rw spaced at h)
        | inl single ↦ elim (Bool-cases (any (λ id. is_known (kinds id)) (ids_of u m.ids))) [
          | inr unknown ↦ cc (rw (single, unknown) at h)
          | inl known ↦
              let made = rw (single, known) at h in
              subst (IsCited u kinds) (some-injective made) (
                (first_of_each-Distinct [] (items_of u m.ids)).1,
                λ id. first_of_each-Among id [] (items_of u m.ids) refl,
                single,
                any-Among kinds (ids_of u m.ids) known,
                count_by_kind_unmatched kinds (ids_of u m.ids),
              )
        ]
      ]

  -- A line is taken for a citation line only with one id of a record at least. Its ids are single tokens: the items after the colon, each once.
  -- The number of unmatched ids is that of the ids without a record.
  pub parse_citation_line-IsCited :
      (is_letter : ℕ → Bool) (line : Text) {citation : CitationLine}
      → parse_citation_line u is_letter kinds line ≡ some citation
      → IsCited u kinds citation
  unfolding parse_citation_line
  parse_citation_line-IsCited is_letter line {citation} h =
      go (match_citation_line u is_letter line) h
    where
      go :
          (found : Option CitationMatch)
          → (elim found as (λ _. Option CitationLine) [
            | none ↦ none
            | some m ↦ citation_of u kinds m (ids_of u m.ids)
          ])
            ≡ some citation
          → IsCited u kinds citation
      go none e = cc e
      go (some m) e = citation_of-IsCited m e
