-- ===== src/Citations/Links/Pieces.antt =====
-- What the substitution of src/qfa/services/record_links.py makes of a text, piece by piece.
use qualitative_feedback_ana.Prelude.{
  ℕ, zero, suc, ◌-◌, ◌≤◌, ◌≡◌, refl, sym, ap, subst, ◌∙◌, Bool, true, false, ◌&&◌, Option, none,
  some, List, [], ◌∷◌, ◌++◌, map, Text, length, length-append, starts_with, starts_with-eq,
  starts_with-append, drop, flatten, if◌then◌else◌, Bool-cases, inl, inr, arith, All, All_at, Among,
  ap₂, &&-left,
}
use qualitative_feedback_ana.Prelude.Sort.{sorted, All-sorted}
use qualitative_feedback_ana.Domain.Records.{AnalysisRecord}
use qualitative_feedback_ana.Citations.Links.Keys.{collect_links_nonempty}
use qualitative_feedback_ana.Citations.Links.{
  longer, ends_here, may_start, match_reference, substitute, collect_links,
  hyperlink_form_references,
}

-- A character that stays, or an id with its link.
pub data Piece : Type 0 where
  plain : ℕ → Piece
  cited : (id link : Text) → Piece

abbrev pub source : Piece → Text
source (plain c) = c ∷ []
source (cited id link) = id

abbrev pub target : Piece → Text
target (plain c) = c ∷ []
target (cited id link) = link

-- The character before what follows a text.
abbrev pub last_of : Option ℕ → Text → Option ℕ
last_of previous [] = previous
last_of previous (c ∷ s) = last_of (some c) s

module _ (is_word : ℕ → Bool) (links : List (Text × Text)) where
  -- Each cited id is a key with its link and stands alone, and no id that stands alone begins at a plain character.
  abbrev pub IsLinked : Option ℕ → List Piece → Type 0
  IsLinked previous [] = Unit
  IsLinked previous (plain c ∷ pieces) =
      ((id link rest : Text)
        → Among (id, link) links
        → c ∷ flatten (map source pieces) ≡ id ++ rest
        → may_start is_word previous && ends_here is_word rest ≡ false)
      × IsLinked (some c) pieces
  IsLinked previous (cited id link ∷ pieces) =
      Among (id, link) links
      × (may_start is_word previous ≡ true)
      × (ends_here is_word (flatten (map source pieces)) ≡ true)
      × IsLinked (last_of previous id) pieces

drop-append : (front back : Text) → drop (length front) (front ++ back) ≡ back
drop-append [] back = refl
drop-append (c ∷ front) back = drop-append front back

module _ (is_word : ℕ → Bool) where
  -- The test of the pattern at one alternative.
  abbrev stands_at : (id s : Text) → Bool
  stands_at id s = starts_with id s && ends_here is_word (drop (length id) s)

  stands_at-append : (id rest : Text) → stands_at id (id ++ rest) ≡ ends_here is_word rest
  stands_at-append id rest =
      let begins = starts_with-append id rest in
      let remains = drop-append id rest in rw (begins, remains) refl

  stands_at-true :
      (id s : Text)
      → stands_at id s ≡ true
      → (rest : Text) × (s ≡ id ++ rest) × (ends_here is_word rest ≡ true)
  stands_at-true id s h =
      let (rest, whole) = starts_with-eq id s (&&-left (starts_with id s) _ h) in
      (rest, whole, sym (stands_at-append id rest) ∙ subst (λ t. stands_at id t ≡ true) whole h)

  match_reference-some :
      (links : List (Text × Text)) (s : Text) {id link : Text}
      → match_reference is_word links s ≡ some (id, link)
      → Among (id, link) links
        × ((rest : Text) × (s ≡ id ++ rest) × (ends_here is_word rest ≡ true))
  unfolding match_reference
  match_reference-some [] s e = cc
  match_reference-some ((k, v) ∷ links) s {id} {link} e = elim (Bool-cases (stands_at k s)) [
    | inl here ↦
        let first : some (k, v) ≡ some (id, link) = rw here at e in
        let same : ◌≡◌ {A = Text × Text} (k, v) (id, link) = cc first in
        (
          inl (sym same),
          subst
              (λ (entry : Text × Text).
                (rest : Text) × (s ≡ entry.0 ++ rest) × (ends_here is_word rest ≡ true))
              same (stands_at-true k s here),
        )
    | inr other ↦ let (m, found) = match_reference-some links s (rw other at e) in (inr m, found)
  ]

  match_reference-none :
      (links : List (Text × Text)) (s : Text)
      → match_reference is_word links s ≡ none
      → (id link rest : Text) → Among (id, link) links
      → s ≡ id ++ rest
      → ends_here is_word rest ≡ false
  unfolding match_reference
  match_reference-none [] s e id link rest m whole = absurd m
  match_reference-none ((k, v) ∷ links) s e id link rest m whole =
      elim (Bool-cases (stands_at k s)) [
        | inl here ↦ cc (rw here at e)
        | inr other ↦ go other (match_reference-none links s (rw other at e) id link rest) m
      ]
    where
      go :
          stands_at k s ≡ false
          → (Among (id, link) links → s ≡ id ++ rest → ends_here is_word rest ≡ false)
          → Among (id, link) ((k, v) ∷ links)
          → ends_here is_word rest ≡ false
      go other again (inl same) =
          let key : id ≡ k = ap (λ (entry : Text × Text). entry.0) same in
          sym (stands_at-append k rest)
          ∙ subst (λ t. stands_at k t ≡ false) (whole ∙ ap (λ t. t ++ rest) key) other
      go other again (inr later) = again later whole

  substitute_skips :
      (links : List (Text × Text)) (front : Text) (previous : Option ℕ) (s : Text)
      → substitute is_word links (length front) previous (front ++ s)
        ≡ substitute is_word links zero (last_of previous front) s
  unfolding substitute
  substitute_skips links [] previous s = refl
  substitute_skips links (c ∷ front) previous s = substitute_skips links front (some c) s

  -- The pieces of a text.
  abbrev Pieces : List (Text × Text) → Option ℕ → Text → Type 0
  Pieces links previous s =
      (pieces : List Piece) × (flatten (map source pieces) ≡ s)
      × (flatten (map target pieces) ≡ substitute is_word links zero previous s)
      × IsLinked is_word links previous pieces

  abbrev matched_at : List (Text × Text) → Option ℕ → Text → Option (Text × Text)
  matched_at links previous s =
      if may_start is_word previous then match_reference is_word links s else none

  -- At a character where nothing matches, no id stands alone.
  unmatched :
      (links : List (Text × Text)) (previous : Option ℕ) (s : Text)
      → matched_at links previous s ≡ none
      → (id link rest : Text) → Among (id, link) links
      → s ≡ id ++ rest
      → may_start is_word previous && ends_here is_word rest ≡ false
  unmatched links previous s e id link rest m whole =
      elim (Bool-cases (may_start is_word previous)) [
        | inl open_here ↦
            let inside = match_reference-none links s (rw open_here at e) id link rest m whole in
            rw (open_here, inside) refl
        | inr closed ↦ rw closed refl
      ]

  matched :
      (links : List (Text × Text)) (previous : Option ℕ) (s : Text) {id link : Text}
      → matched_at links previous s ≡ some (id, link)
      → (may_start is_word previous ≡ true)
        × Among (id, link) links
        × ((rest : Text) × (s ≡ id ++ rest) × (ends_here is_word rest ≡ true))
  matched links previous s e = elim (Bool-cases (may_start is_word previous)) [
    | inl open_here ↦
        let (m, found) = match_reference-some links s (rw open_here at e) in (open_here, m, found)
    | inr closed ↦ cc (rw closed at e)
  ]

  -- Whatever matches, it goes on with what is left.
  next_piece :
      (links : List (Text × Text)) (previous : Option ℕ) (c : ℕ) (s : Text)
      (found : Option (Text × Text))
      → matched_at links previous (c ∷ s) ≡ found
      → All (λ entry. 1 ≤ length entry.0) links
      → ((p : Option ℕ) (t : Text) → length t ≤ length s → Pieces links p t)
      → Pieces links previous (c ∷ s)
  unfolding substitute
  next_piece links previous c s none e nonempty again =
      let (pieces, sources, targets, linked) = again (some c) s (omega arith) in
      (
        plain c ∷ pieces,
        ap (◌∷◌ c) sources,
        rw (e, substitute) (ap (◌∷◌ c) targets),
        (
          λ id link rest m whole.
              unmatched links previous (c ∷ s) e id link rest m (ap (◌∷◌ c) (sym sources) ∙ whole),
          linked,
        ),
      )
  next_piece links previous c s (some ([], link)) e nonempty again =
      let (_, m, _) = matched links previous (c ∷ s) e in
      let too_short = All_at (λ entry. 1 ≤ length entry.0) links nonempty m in absurd (omega arith)
  next_piece links previous c s (some (i ∷ id, link)) e nonempty again =
      let (open_here, m, found) = matched links previous (c ∷ s) e in
      let (rest, whole, alone) = found in
      let first : c ≡ i = cc whole in
      let behind : s ≡ id ++ rest = cc whole in
      let (pieces, sources, targets, linked) =
        again (last_of (some i) id) rest
          (omega (arith, ap length behind, length-append {0} id rest)) in
      let skip : length id ≡ suc (length id) - 1 = omega arith in
      (
        cited (i ∷ id) link ∷ pieces,
        ap (λ t. i ∷ id ++ t) sources ∙ sym whole,
        rw (e, substitute)
            (ap (◌++◌ link) (
              targets
              ∙ sym (substitute_skips links id (some i) rest)
              ∙ ap₂ (λ p t. substitute is_word links (length id) (some p) t) (sym first)
                  (sym behind)
              ∙ ap (λ k. substitute is_word links k (some c) s) skip)),
        (m, open_here, subst (λ t. ends_here is_word t ≡ true) (sym sources) alone, linked),
      )

  substitute-Pieces :
      (links : List (Text × Text))
      → All (λ entry. 1 ≤ length entry.0) links
      → (n : ℕ) (previous : Option ℕ) (s : Text) → length s ≤ n
      → Pieces links previous s
  unfolding substitute
  substitute-Pieces links nonempty n previous [] h = ([], refl, refl, tt)
  substitute-Pieces links nonempty zero previous (c ∷ s) h = absurd (omega arith)
  substitute-Pieces links nonempty (suc n) previous (c ∷ s) h =
      next_piece links previous c s _ refl nonempty
        (λ p t shorter. substitute-Pieces links nonempty n p t (omega arith))

-- The text falls into characters that stay and ids that give way to their links, and nothing else changes. Each such id is that of a link, is not
-- preceded by a word character, `[` or `-`, and is not followed by a word character; and at no character that stays begins an id that is so.
pub hyperlink_form_references-IsLinked :
    (is_word : ℕ → Bool) (records : List AnalysisRecord) (feedback_url meeting_url : Option Text)
    (text : Text)
    → let links = sorted longer (collect_links feedback_url meeting_url records []) in
      (pieces : List Piece) × (flatten (map source pieces) ≡ text)
      × (flatten (map target pieces)
          ≡ hyperlink_form_references is_word records feedback_url meeting_url text)
      × IsLinked is_word links none pieces
unfolding hyperlink_form_references
hyperlink_form_references-IsLinked is_word records feedback_url meeting_url text =
    substitute-Pieces is_word (sorted longer (collect_links feedback_url meeting_url records []))
      (All-sorted longer (λ entry. 1 ≤ length entry.0) _
        (collect_links_nonempty feedback_url meeting_url records [] tt))
      (length text) none text (omega arith)
