-- ===== src/Trends/Buckets.antt =====
-- `_period_of` and `_codes_in_record` of src/qfa/services/coding_trends.py.
use qualitative_feedback_ana.Prelude.{
  ℕ, ◌-◌, Bool, true, false, not, ◌&&◌, ◌||◌, Option, none, some, List, [], ◌∷◌, ◌++◌, map, keep,
  Text, codes, Unicode, strip, length, ltb, text_eq, replicate, ◌==◌, if◌then◌else◌, take, drop,
}
use qualitative_feedback_ana.Prelude.Decimal.{decimal}
use qualitative_feedback_ana.Domain.Records.{FeedbackRecordMetadataModel, FeedbackRecordModel}
use qualitative_feedback_ana.Clustering.Dates.{char_is, digits_at}

pub data TrendPeriod : Type 0 where
  day week month : TrendPeriod

-- `text[i:j]`
abbrev pub slice : (i j : ℕ) → Text → Text
slice i j text = drop i (take j text)

-- `:04d` and `:02d`
abbrev pub padded : (width n : ℕ) → Text
padded width n = replicate (width - length (decimal n)) b'0' ++ decimal n

-- `iso_week` is `date(int(year), int(month), int(day)).isocalendar()`: the year and the week, or nothing for a ValueError.
module _ (u : Unicode) (iso_week : (y m d : Text) → Option (ℕ × ℕ)) where
  month_of : (text : Text) → Option Text
  month_of text =
      if ltb (length text) 7 || not (char_is u text 4 b'-')
      then none
      else if not (digits_at u text 0 4 && digits_at u text 5 7)
      then none
      else some (slice 0 4 text ++ (codes "-" ++ slice 5 7 text))

  day_or_week_of : (text : Text) (of_date : (y m d : Text) → Option Text) → Option Text
  day_or_week_of text of_date =
      if ltb (length text) 10 || (not (char_is u text 4 b'-') || not (char_is u text 7 b'-'))
      then none
      else if not (digits_at u text 0 4 && (digits_at u text 5 7 && digits_at u text 8 10))
      then none
      else of_date (slice 0 4 text) (slice 5 7 text) (slice 8 10 text)

  iso_week_label : (y m d : Text) → Option Text
  iso_week_label y m d = elim (iso_week y m d) [
    | none ↦ none
    | some (iso_year, number) ↦ some (padded 4 iso_year ++ (codes "-W" ++ padded 2 number))
  ]

  unfoldable pub period_of : (raw_date : Text) → TrendPeriod → Option Text
  unfolding month_of day_or_week_of iso_week_label
  period_of raw_date month = month_of (strip u raw_date)
  period_of raw_date day =
      day_or_week_of (strip u raw_date)
        (λ y m d. some (y ++ (codes "-" ++ (m ++ (codes "-" ++ d)))))
  period_of raw_date week = day_or_week_of (strip u raw_date) iso_week_label

-- `s.split(",")`: one part more than there are commas.
abbrev pub split_commas : Text → List Text
split_commas [] = [] ∷ []
split_commas (c ∷ s) = elim (split_commas s) [
  | [] ↦ (c ∷ []) ∷ []
  | part ∷ parts ↦ if c == b',' then [] ∷ part ∷ parts else (c ∷ part) ∷ parts
]

-- `getattr(metadata, field, None)`, where that is a string.
abbrev pub metadata_field : FeedbackRecordMetadataModel → (field : Text) → Option Text
metadata_field metadata field =
    if text_eq field (codes "created")
    then some metadata.created
    else if text_eq field (codes "coding_level_1")
    then metadata.coding_level_1
    else if text_eq field (codes "coding_level_2")
    then metadata.coding_level_2
    else if text_eq field (codes "coding_level_3")
    then metadata.coding_level_3
    else none

abbrev pub not_empty : Text → Bool
not_empty [] = false
not_empty (c ∷ s) = true

module _ (u : Unicode) where
  unfoldable pub codes_in_record : FeedbackRecordModel → (code_fields : List Text) → List Text
  codes_in_record r [] = []
  codes_in_record r (field ∷ code_fields) = elim (metadata_field r.metadata field) [
    | none ↦ codes_in_record r code_fields
    | some raw ↦ keep not_empty (map (strip u) (split_commas raw)) ++ codes_in_record r code_fields
  ]
