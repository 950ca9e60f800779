-- ===== src/Citations/Format.antt =====
-- `format_record_citations` of src/qfa/services/record_links.py. A dictionary by record id is a function.
pub mod Cited
use mathlib.Core.List.{reverse}
use qualitative_feedback_ana.Prelude.{
  ℕ, ◌+◌, ◌-◌, Bool, true, false, not, ◌||◌, ◌&&◌, Option, none, some, List, [], ◌∷◌, ◌++◌, map,
  Text, codes, text_eq, leb, length, lstrip, any, all, join, keep, ◌==◌, if◌then◌else◌, Unicode,
  strip,
}
use qualitative_feedback_ana.Prelude.Decimal.{decimal}
use qualitative_feedback_ana.Domain.Records.{AnalysisRecord, feedback, meeting, record_id}
use qualitative_feedback_ana.Citations.Links.{hyperlink_form_references}
use qualitative_feedback_ana.Citations.Lines.{CitationMatch, match_heading, match_citation_line}

-- `MAX_INLINE_RECORD_IDS`
abbrev pub max_inline_record_ids : ℕ
max_inline_record_ids = 5

abbrev add_to_first : ℕ → List Text → List Text
add_to_first c [] = (c ∷ []) ∷ []
add_to_first c (part ∷ parts) = (c ∷ part) ∷ parts

-- `text.split(sep)` for one character.
unfoldable pub split_at : (sep : ℕ) → Text → List Text
split_at sep [] = [] ∷ []
split_at sep (c ∷ s) =
    let rest = split_at sep s in if c == sep then [] ∷ rest else add_to_first c rest

abbrev pub is_in : Text → List Text → Bool
is_in x xs = any (text_eq x) xs

-- `list(dict.fromkeys(items))`, by what has been seen.
unfoldable pub first_of_each : (seen items : List Text) → List Text
first_of_each seen [] = []
first_of_each seen (x ∷ items) = elim (is_in x seen) [
  | true ↦ first_of_each seen items
  | false ↦ x ∷ first_of_each (x ∷ seen) items
]

-- `text.rstrip(chars)` and `text.strip(chars)`
abbrev rstrip_of : (ℕ → Bool) → Text → Text
rstrip_of p s = reverse (lstrip p (reverse s))

abbrev strip_of : (ℕ → Bool) → Text → Text
strip_of p s = rstrip_of p (lstrip p s)

-- `True` for a community meeting; a later record takes the place of an earlier one with its id.
unfoldable pub kind_of : List AnalysisRecord → (id : Text) → Option Bool
kind_of records [] = none
kind_of [] (i ∷ id) = none
kind_of (r ∷ records) (i ∷ id) = elim (kind_of records (i ∷ id)) [
  | some kind ↦ some kind
  | none ↦
      if text_eq (record_id r) (i ∷ id)
      then elim r as (λ _. Option Bool) [ feedback f ↦ some false | meeting m ↦ some true ]
      else none
]

abbrev pub is_known : Option Bool → Bool
is_known none = false
is_known (some kind) = true

-- `_CitationLine`
pub record CitationLine : Type 0 where
  pub lead : Text
  pub label : Text
  pub colon : ℕ
  pub rest : Text
  pub ids : List Text

module _ (u : Unicode) where
  -- `item and len(item.split()) == 1`, for an item without blanks at its ends.
  abbrev pub is_single_token : Text → Bool
  is_single_token [] = false
  is_single_token (c ∷ item) = not (any u.is_space (c ∷ item))

  -- `i.strip() for i in match["ids"].rstrip(".").split(",")`
  abbrev pub items_of : Text → List Text
  items_of ids = map (strip u) (split_at b',' (rstrip_of (λ c. c == b'.') ids))

  unfoldable pub ids_of : Text → List Text
  unfolding split_at first_of_each
  ids_of ids = first_of_each [] (items_of ids)

  unfoldable pub citation_of :
      (kinds : Text → Option Bool) → CitationMatch → (ids : List Text) → Option CitationLine
  citation_of kinds m ids =
      if not (all is_single_token ids)
      then none
      else if not (any (λ id. is_known (kinds id)) ids)
      then none
      else some record {
        lead = m.lead;
        label = strip_of (λ c. c == b'*' || (c == b'_' || c == b' ')) m.label;
        colon = m.colon;
        rest = m.ids;
        ids = ids;
      }

  unfoldable pub parse_citation_line :
      (is_letter : ℕ → Bool) (kinds : Text → Option Bool) (line : Text) → Option CitationLine
  unfolding match_citation_line citation_of ids_of
  parse_citation_line is_letter kinds line = elim (match_citation_line u is_letter line) [
    | none ↦ none
    | some m ↦ citation_of kinds m (ids_of m.ids)
  ]

abbrev is_kind : Bool → Option Bool → Bool
is_kind kind none = false
is_kind true (some other) = other
is_kind false (some other) = not other

-- `(feedback, meetings, unmatched)`
unfoldable pub count_by_kind : (ids : List Text) (kinds : Text → Option Bool) → ℕ × ℕ × ℕ
count_by_kind ids kinds =
    let meetings = length (keep (λ id. is_kind true (kinds id)) ids) in
    let feedback_records = length (keep (λ id. is_kind false (kinds id)) ids) in
    (feedback_records, meetings, length ids - meetings - feedback_records)

part_of : (count : ℕ) (one many : Text) → List Text
part_of count one many =
    if count == 0
    then []
    else (decimal count ++ (codes " " ++ (if count == 1 then one else many))) ∷ []

unfoldable pub count_label : ℕ × ℕ × ℕ → Text
unfolding part_of
count_label (feedback_records, meetings, unmatched) =
    if unmatched == 0 && not (not (feedback_records == 0) && not (meetings == 0))
    then decimal (feedback_records + meetings) ++ codes " records"
    else join (codes ", ") (
        part_of feedback_records (codes "feedback record") (codes "feedback records")
        ++ (part_of meetings (codes "community meeting") (codes "community meetings")
            ++ part_of unmatched (codes "unmatched id") (codes "unmatched ids")))

abbrev overflow_heading : Text
overflow_heading = codes "Records per point"

unfoldable pub pointer_line : (label : Text) → Text
pointer_line label =
    codes "**Records:** "
    ++ (label ++ (codes ". *See \"" ++ (overflow_heading ++ codes "\" at the end.*")))

-- The heading of the point, the label and the ids with their links.
abbrev pub MovedList : Type 0
MovedList = Text × Text × Text

blocks : List MovedList → Text
blocks [] = []
blocks ((heading, label, ids) ∷ moved) =
    codes "\n#### "
    ++ (heading
        ++ (codes " (" ++ (label ++ (codes ")\n" ++ (ids ++ (codes "\n" ++ blocks moved))))))

unfoldable pub overflow_section : List MovedList → Text
unfolding blocks
overflow_section moved =
    rstrip_of (λ c. c == 10)
      (codes "\n---\n\n### " ++ (overflow_heading ++ (codes "\n" ++ blocks moved)))

module _ (u : Unicode) (is_word is_letter : ℕ → Bool) (records : List AnalysisRecord)
    (feedback_url meeting_url : Option Text) where
  unfoldable pub apply_links : Text → Text
  unfolding hyperlink_form_references
  apply_links text = hyperlink_form_references is_word records feedback_url meeting_url text

  unfoldable pub heading_after : (heading line : Text) → Text
  unfolding match_heading
  heading_after heading line = elim (match_heading u line) [ none ↦ heading | some title ↦ title ]

  or_records : Text → Text
  or_records [] = codes "Records"
  or_records (c ∷ heading) = c ∷ heading

  -- The new line, with the list that moves.
  unfoldable pub format_line : (heading line : Text) → Text × List MovedList
  unfolding parse_citation_line kind_of apply_links count_by_kind count_label pointer_line
      or_records
  format_line heading line = elim (parse_citation_line u is_letter (kind_of records) line) [
    | none ↦ (apply_links line, [])
    | some citation ↦
        if leb (length citation.ids) max_inline_record_ids
        then (
          citation.lead
              ++ (codes "**"
                  ++ (citation.label
                      ++ (citation.colon ∷ (codes "** " ++ apply_links citation.rest)))),
          [],
        )
        else (
          pointer_line (count_label (count_by_kind citation.ids (kind_of records))),
          (
            or_records heading,
            count_label (count_by_kind citation.ids (kind_of records)),
            apply_links (join (codes ", ") citation.ids),
          )
              ∷ [],
        )
  ]

  -- The loop over the lines.
  unfoldable pub format_lines : (heading : Text) (lines : List Text) → List Text × List MovedList
  unfolding format_line heading_after
  format_lines heading [] = ([], [])
  format_lines heading (line ∷ lines) =
      let here = heading_after heading line in
      let (new, lists) = format_line here line in
      let (rest, moved) = format_lines here lines in (new ∷ rest, lists ++ moved)

  closing : List MovedList → List Text
  unfolding overflow_section
  closing [] = []
  closing (list ∷ moved) = overflow_section (list ∷ moved) ∷ []

  unfoldable pub format_record_citations : Text → Text
  unfolding split_at format_lines closing
  format_record_citations text =
      let (lines, moved) = format_lines [] (split_at 10 text) in
      join (codes "\n") (lines ++ closing moved)
