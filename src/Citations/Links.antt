-- ===== src/Citations/Links.antt =====
-- `hyperlink_form_references` of src/qfa/services/record_links.py. A dictionary is a list of entries in the order of insertion. Which characters
-- `\w` takes is a parameter, as the tables of Unicode are.
mod Keys
pub mod Pieces
use mathlib.Core.List.{reverse}
use qualitative_feedback_ana.Prelude.{
  ℕ, zero, suc, ◌-◌, Bool, true, false, not, ◌||◌, ◌&&◌, Option, none, some, List, [], ◌∷◌, ◌++◌,
  map, Text, codes, text_eq, ltb, length, lstrip, starts_with, drop, ◌==◌, if◌then◌else◌,
}
use qualitative_feedback_ana.Prelude.Sort.{sorted}
use qualitative_feedback_ana.Domain.Records.{
  AnalysisRecord, feedback, meeting, record_id, record_url_id,
}

-- `d[key] = value`
unfoldable pub set_link : (key value : Text) → List (Text × Text) → List (Text × Text)
set_link key value [] = (key, value) ∷ []
set_link key value ((k, v) ∷ links) =
    if text_eq k key then (k, value) ∷ links else (k, v) ∷ set_link key value links

-- `url.rstrip('/')`
abbrev rstrip_slash : Text → Text
rstrip_slash url = reverse (lstrip (λ c. c == b'/') (reverse url))

-- The id, the base URL and the URL id, none of them empty.
unfoldable pub add_link : (id url_id : Text) → Option Text → List (Text × Text) → List (Text × Text)
unfolding set_link
add_link (i ∷ id) (u ∷ url_id) (some (b ∷ base_url)) links =
    set_link (i ∷ id)
      (codes "["
        ++ ((i ∷ id)
            ++ (codes "]("
                ++ (rstrip_slash (b ∷ base_url) ++ (codes "/" ++ ((u ∷ url_id) ++ codes ")"))))))
      links
add_link _ _ _ links = links

abbrev pub base_url_of : (feedback_url meeting_url : Option Text) → AnalysisRecord → Option Text
base_url_of feedback_url meeting_url (feedback r) = feedback_url
base_url_of feedback_url meeting_url (meeting r) = meeting_url

unfoldable pub collect_links :
    (feedback_url meeting_url : Option Text)
    → List AnalysisRecord
    → List (Text × Text)
    → List (Text × Text)
unfolding add_link
collect_links feedback_url meeting_url [] links = links
collect_links feedback_url meeting_url (r ∷ records) links =
    collect_links feedback_url meeting_url records
      (add_link (record_id r) (record_url_id r) (base_url_of feedback_url meeting_url r) links)

-- `len`, in reverse.
abbrev pub longer : Text × Text → Text × Text → Bool
longer a b = not (ltb (length a.0) (length b.0))

module _ (is_word : ℕ → Bool) where
  -- `(?![\w])`
  abbrev pub ends_here : Text → Bool
  ends_here [] = true
  ends_here (c ∷ s) = not (is_word c)

  -- `(?<![\w\[-])`
  abbrev pub may_start : Option ℕ → Bool
  may_start none = true
  may_start (some c) = not (is_word c || (c == b'[' || c == b'-'))

  -- The alternatives in their order; the lookahead belongs to each.
  unfoldable pub match_reference : List (Text × Text) → Text → Option (Text × Text)
  match_reference [] s = none
  match_reference ((id, link) ∷ links) s =
      if starts_with id s && ends_here (drop (length id) s)
      then some (id, link)
      else match_reference links s

  -- `pattern.sub`: `skip` characters of a match are left, and `previous` is the character before.
  unfoldable pub substitute :
      (links : List (Text × Text)) (skip : ℕ) (previous : Option ℕ) → Text → Text
  unfolding match_reference
  substitute links skip previous [] = []
  substitute links (suc skip) previous (c ∷ s) = substitute links skip (some c) s
  substitute links zero previous (c ∷ s) =
      elim (if may_start previous then match_reference links (c ∷ s) else none) [
        | none ↦ c ∷ substitute links zero (some c) s
        | some (id, link) ↦ link ++ substitute links (length id - 1) (some c) s
      ]

  -- With no links there is no pattern; nothing matches then.
  unfoldable pub hyperlink_form_references :
      List AnalysisRecord → (feedback_url meeting_url : Option Text) → Text → Text
  unfolding collect_links sorted substitute
  hyperlink_form_references records feedback_url meeting_url text =
      substitute (sorted longer (collect_links feedback_url meeting_url records [])) zero none text
