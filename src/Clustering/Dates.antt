-- ===== src/Clustering/Dates.antt =====
-- `_iso_date_prefix` and `_sort_by_date` of src/qfa/services/clustering.py. A code point that the
-- source tests by `isdigit` or `strip` is looked up in the Unicode tables `u`.
pub mod Chronology
use mathlib.Core.List.{Perm}
use qualitative_feedback_ana.Prelude.{
  ℕ, ◌≡◌, ◌⊎◌, Bool, true, false, not, ◌&&◌, ◌||◌, ◌<◌, Option, none, some, List, [], Text, Unicode,
  strip, isdigit, text_leb, text_leb_total, text_leb_trans, length, get_elem?, take, drop, ltb,
  ◌==◌, if◌then◌else◌, arith, keep,
}
use qualitative_feedback_ana.Prelude.Sort.{
  sorted, sorted-perm, sorted-IsSorted, IsSorted, keep-sorted, length-sorted,
}
use qualitative_feedback_ana.Domain.Records.{AnalysisRecord, record_date}

module _ (u : Unicode) where
  -- `text[i] == c`, after the length has been tested.
  abbrev pub char_is : Text → ℕ → ℕ → Bool
  char_is text i c = elim (get_elem? text i) [ none ↦ false | some d ↦ d == c ]

  -- `text[i:j].isdigit()`
  abbrev pub digits_at : Text → (start stop : ℕ) → Bool
  digits_at text start stop = isdigit u (drop start (take stop text))

  unfoldable pub iso_date_prefix : Text → Option Text
  iso_date_prefix raw =
      let text = strip u raw in
      if ltb (length text) 7 || not (char_is text 4 b'-')
      then none
      else if not (digits_at text 0 4 && digits_at text 5 7)
      then none
      else some text

  -- The key `(prefix is None, prefix or "")`.
  abbrev pub key_of : Option Text → Bool × Text
  key_of none = (true, [])
  key_of (some prefix) = (false, prefix)

  unfoldable pub key : AnalysisRecord → Bool × Text
  key r = key_of (iso_date_prefix (record_date r))

  abbrev pub key_leb : Bool × Text → Bool × Text → Bool
  key_leb (false, s) (false, t) = text_leb s t
  key_leb (false, s) (true, t) = true
  key_leb (true, s) (false, t) = false
  key_leb (true, s) (true, t) = text_leb s t

  abbrev pub earlier : AnalysisRecord → AnalysisRecord → Bool
  earlier r s = key_leb (key r) (key s)

  unfoldable pub sort_by_date : List AnalysisRecord → List AnalysisRecord
  sort_by_date = sorted earlier

  pub key_leb_total : (a b : Bool × Text) → (key_leb a b ≡ true) ⊎ (key_leb b a ≡ true)
  key_leb_total (false, s) (false, t) = text_leb_total s t
  key_leb_total (false, s) (true, t) = ground arith
  key_leb_total (true, s) (false, t) = ground arith
  key_leb_total (true, s) (true, t) = text_leb_total s t

  pub key_leb_trans :
      (a b c : Bool × Text) → key_leb a b ≡ true → key_leb b c ≡ true → key_leb a c ≡ true
  key_leb_trans (x, s) (y, t) (z, v) p q = ground (arith, text_leb_trans s t v)

  pub sort_by_date-perm : (records : List AnalysisRecord) → Perm (sort_by_date records) records
  unfolding sort_by_date
  sort_by_date-perm = sorted-perm earlier

  pub length-sort_by_date_pos :
      (records : List AnalysisRecord) → 0 < length records → 0 < length (sort_by_date records)
  unfolding sort_by_date
  length-sort_by_date_pos records h = omega (arith, length-sorted earlier records)
