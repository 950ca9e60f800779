-- ===== src/Tests/CitationsTests.antt =====
-- Links and citation lines of src/qfa/services/record_links.py on small texts, and an instance of the theorem on links.
use qualitative_feedback_ana.Prelude.{
  ℕ, ◌≡◌, refl, ◌||◌, ◌&&◌, leb, ◌==◌, Bool, none, some, List, [], ◌∷◌, map, Text, codes, ascii,
  flatten, Option,
}
use qualitative_feedback_ana.Prelude.Decimal.{decimal}
use qualitative_feedback_ana.Prelude.Sort.{sorted}
use qualitative_feedback_ana.Domain.Records.{AnalysisRecord, feedback}
use qualitative_feedback_ana.Citations.Links.{hyperlink_form_references, collect_links, longer}
use qualitative_feedback_ana.Citations.Links.Pieces.{
  Piece, source, target, IsLinked, hyperlink_form_references-IsLinked,
}
use qualitative_feedback_ana.Citations.Lines.{match_heading}
use qualitative_feedback_ana.Citations.Format.{
  CitationLine, kind_of, parse_citation_line, format_record_citations,
}
use qualitative_feedback_ana.Citations.Format.Cited.{IsCited, parse_citation_line-IsCited}
use qualitative_feedback_ana.Tests.Data.{form, session}

abbrev pub is_letter : ℕ → Bool
is_letter c = (leb b'a' c && leb c b'z') || (leb b'A' c && leb c b'Z')

abbrev pub is_word : ℕ → Bool
is_word c = is_letter c || ((leb b'0' c && leb c b'9') || c == b'_')

abbrev pub records : List AnalysisRecord
records =
    feedback (form "F-1" "a" "2024")
    ∷ feedback (form "F-10" "b" "2024")
    ∷ session "M-1" "c" "2024"
    ∷ []

abbrev pub url : Option Text
url = some (codes "https://x/")

-- Only whole ids are linked, and not within a link on their own.
linked :
    hyperlink_form_references is_word records url none (codes "F-1, F-10, F-100, XF-1 and [F-1](y)")
    ≡ codes "[F-1](https://x/F-1), [F-10](https://x/F-10), F-100, XF-1 and [F-1](y)"
unfolding hyperlink_form_references
linked = refl

-- The address of a link that is there already is rewritten.
inside_a_link :
    hyperlink_form_references is_word records url none (codes "[see](https://x/F-1)")
    ≡ codes "[see](https://x/[F-1](https://x/F-1))"
unfolding hyperlink_form_references
inside_a_link = refl

title : match_heading ascii (codes " ## Water  ##") ≡ some (codes "Water")
unfolding match_heading
title = refl

short_list :
    format_record_citations ascii is_word is_letter records url none (codes "- Ids: F-1, M-1.")
    ≡ codes "- **Ids:** [F-1](https://x/F-1), M-1."
unfolding format_record_citations
short_list = refl

long_list :
    format_record_citations ascii is_word is_letter records none none
      (codes "**R:** F-1,F-10,M-1,F-1,A,B,C.")
    ≡ codes
        "**Records:** 2 feedback records, 1 community meeting, 3 unmatched ids. *See \"Records per point\" at the end.*\n\n---\n\n### Records per point\n\n#### Records (2 feedback records, 1 community meeting, 3 unmatched ids)\nF-1, F-10, M-1, A, B, C"
unfolding format_record_citations decimal
long_list = refl

hyperlink_form_references-IsLinked_example :
    let links = sorted longer (collect_links url none records []) in
    (pieces : List Piece) × (flatten (map source pieces) ≡ codes "see F-10.")
    × (flatten (map target pieces)
        ≡ hyperlink_form_references is_word records url none (codes "see F-10."))
    × IsLinked is_word links none pieces
hyperlink_form_references-IsLinked_example =
    hyperlink_form_references-IsLinked is_word records url none (codes "see F-10.")

abbrev cited : CitationLine
cited = record {
  lead = codes "- ";
  label = codes "Ids";
  colon = b':';
  rest = codes "F-1, A, F-1, M-1.";
  ids = codes "F-1" ∷ codes "A" ∷ codes "M-1" ∷ [];
}

cited_line :
    parse_citation_line ascii is_letter (kind_of records) (codes "- **Ids:** F-1, A, F-1, M-1.")
    ≡ some cited
unfolding parse_citation_line kind_of
cited_line = refl

parse_citation_line-IsCited_example : IsCited ascii (kind_of records) cited
parse_citation_line-IsCited_example =
    parse_citation_line-IsCited ascii (kind_of records) is_letter
      (codes "- **Ids:** F-1, A, F-1, M-1.") cited_line
