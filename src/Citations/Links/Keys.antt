-- ===== src/Citations/Links/Keys.antt =====
-- The dictionary of links of src/qfa/services/record_links.py.
use qualitative_feedback_ana.Prelude.{
  ◌≤◌, Option, none, some, List, [], ◌∷◌, Text, length, Bool-cases, inl, inr, arith, All, text_eq,
}
use qualitative_feedback_ana.Domain.Records.{AnalysisRecord, record_id, record_url_id}
use qualitative_feedback_ana.Citations.Links.{set_link, add_link, base_url_of, collect_links}

-- Every key of the links is an id with a character.
set_link_nonempty :
    (key value : Text) (links : List (Text × Text))
    → 1 ≤ length key
    → All (λ entry. 1 ≤ length entry.0) links
    → All (λ entry. 1 ≤ length entry.0) (set_link key value links)
unfolding set_link
set_link_nonempty key value [] k h = (k, tt)
set_link_nonempty key value ((j, v) ∷ links) k h = elim (Bool-cases (text_eq j key)) [
  | inl this ↦ rw this h
  | inr other ↦ rw other (h.0, set_link_nonempty key value links k h.1)
]

add_link_nonempty :
    (id url_id : Text) (base_url : Option Text) (links : List (Text × Text))
    → All (λ entry. 1 ≤ length entry.0) links
    → All (λ entry. 1 ≤ length entry.0) (add_link id url_id base_url links)
unfolding add_link
add_link_nonempty [] url_id base_url links h = h
add_link_nonempty (i ∷ id) [] base_url links h = h
add_link_nonempty (i ∷ id) (u ∷ url_id) none links h = h
add_link_nonempty (i ∷ id) (u ∷ url_id) (some []) links h = h
add_link_nonempty (i ∷ id) (u ∷ url_id) (some (b ∷ base_url)) links h =
    set_link_nonempty (i ∷ id) _ links (omega arith) h

pub collect_links_nonempty :
    (feedback_url meeting_url : Option Text) (records : List AnalysisRecord)
    (links : List (Text × Text))
    → All (λ entry. 1 ≤ length entry.0) links
    → All (λ entry. 1 ≤ length entry.0) (collect_links feedback_url meeting_url records links)
unfolding collect_links
collect_links_nonempty feedback_url meeting_url [] links h = h
collect_links_nonempty feedback_url meeting_url (r ∷ records) links h =
    collect_links_nonempty feedback_url meeting_url records _ (
      add_link_nonempty (record_id r) (record_url_id r) (base_url_of feedback_url meeting_url r)
        links h)
