-- ===== src/Clustering/Dates/Chronology.antt =====
-- The order that `_sort_by_date` of src/qfa/services/clustering.py gives, by the dates that records have.
use qualitative_feedback_ana.Prelude.{
  ◌≡◌, refl, ap, ◌∙◌, Bool, true, false, not, Option, none, some, List, ◌++◌, Text, Unicode,
  text_eq, text_eq-eq, text_leb, text_leb_total, keep, inl, inr,
}
use qualitative_feedback_ana.Prelude.Sort.{
  sorted, sorted-IsSorted, IsSorted, keep-sorted, keep_in_order, keep_first,
}
use qualitative_feedback_ana.Domain.Records.{AnalysisRecord, record_date}
use qualitative_feedback_ana.Clustering.Dates.{
  iso_date_prefix, key_of, key, key_leb, key_leb_total, key_leb_trans, earlier, sort_by_date,
}

text_leb_refl : (s : Text) → text_leb s s ≡ true
text_leb_refl s = elim (text_leb_total s s) [ inl h ↦ h | inr h ↦ h ]

module _ (u : Unicode) where
  -- The date of a record, if it has one.
  abbrev pub date_of : AnalysisRecord → Option Text
  date_of r = iso_date_prefix u (record_date r)

  abbrev is_some_date : Option Text → Bool
  is_some_date none = false
  is_some_date (some date) = true

  abbrev is_that_date : (date : Text) → Option Text → Bool
  is_that_date date none = false
  is_that_date date (some other) = text_eq other date

  abbrev in_order : (first second : Option Text) → Bool
  in_order none second = false
  in_order (some date) none = false
  in_order (some date) (some other) = text_leb date other

  abbrev pub is_dated : AnalysisRecord → Bool
  is_dated r = is_some_date (date_of r)

  abbrev pub has_date : (date : Text) → AnalysisRecord → Bool
  has_date date r = is_that_date date (date_of r)

  -- Both have a date, and that of the first is not after that of the second.
  abbrev pub not_after : AnalysisRecord → AnalysisRecord → Bool
  not_after r s = in_order (date_of r) (date_of s)

  undated_later :
      (a b : Option Text)
      → is_some_date a ≡ false
      → is_some_date b ≡ true
      → key_leb u (key_of u a) (key_of u b) ≡ false
  undated_later none (some date) p q = refl
  undated_later none none p q = cc q
  undated_later (some date) b p q = cc p

  same_date :
      (date : Text) (a b : Option Text)
      → is_that_date date a ≡ true
      → is_that_date date b ≡ true
      → key_leb u (key_of u a) (key_of u b) ≡ true
  same_date date none b p q = cc p
  same_date date (some d) none p q = cc
  same_date date (some d) (some e) p q =
      rw (text_eq-eq d date p, text_eq-eq e date q) (text_leb_refl date)

  undated_alike :
      (a b : Option Text)
      → not (is_some_date a) ≡ true
      → not (is_some_date b) ≡ true
      → key_leb u (key_of u a) (key_of u b) ≡ true
  undated_alike none none p q = refl
  undated_alike none (some e) p q = cc q
  undated_alike (some d) b p q = cc p

  dated_in_order :
      (a b : Option Text)
      → is_some_date a ≡ true
      → is_some_date b ≡ true
      → key_leb u (key_of u a) (key_of u b) ≡ true
      → in_order a b ≡ true
  dated_in_order none b p q h = cc p
  dated_in_order (some d) none p q h = cc q
  dated_in_order (some d) (some e) p q h = h

  -- The records with a date come first, none of them after a later one, and behind them stand those without one, as they were given. The
  -- records of each date are all there, in the order that they were given in.
  pub sort_by_date_lem :
      (records : List AnalysisRecord)
      → (sort_by_date u records
          ≡ keep is_dated (sort_by_date u records) ++ keep (λ r. not (is_dated r)) records)
        × IsSorted not_after (keep is_dated (sort_by_date u records))
        × ((date : Text)
            → keep (has_date date) (sort_by_date u records) ≡ keep (has_date date) records)
  unfolding sort_by_date key
  sort_by_date_lem records =
      let in_key_order : IsSorted (earlier u) (sorted (earlier u) records) =
        sorted-IsSorted (earlier u) (λ r s. key_leb_total u (key u r) (key u s))
          (λ r s t. key_leb_trans u (key u r) (key u s) (key u t)) records in
      (
        keep_first (earlier u) is_dated (sorted (earlier u) records)
              (λ r s. undated_later (date_of r) (date_of s)) in_key_order
            ∙ ap (◌++◌ (keep is_dated (sorted (earlier u) records))) (
                keep-sorted (earlier u) (λ r. not (is_dated r))
                  (λ r s. undated_alike (date_of r) (date_of s)) records),
        keep_in_order (earlier u) is_dated not_after (λ r s. dated_in_order (date_of r) (date_of s))
            (sorted (earlier u) records) in_key_order,
        λ date.
            keep-sorted (earlier u) (has_date date) (λ r s. same_date date (date_of r) (date_of s))
              records,
      )
