-- ===== src/Tests/TrendsTests.antt =====
-- Instances of the theorems on src/qfa/services/coding_trends.py, and a small table as it is rendered. Weeks are not needed here.
use qualitative_feedback_ana.Prelude.{
  ℕ, ◌≡◌, refl, Option, none, some, List, [], ◌∷◌, Text, codes, ascii,
}
use qualitative_feedback_ana.Prelude.Decimal.{decimal}
use qualitative_feedback_ana.Domain.Records.{AnalysisRecord, feedback}
use qualitative_feedback_ana.Trends.Buckets.{month}
use qualitative_feedback_ana.Trends.Table.{
  CodingTrendTable, build_coding_trend_table, render_coding_trend_table, lookup,
}
use qualitative_feedback_ana.Trends.Table.Counting.{occurrences, lookup-build_coding_trend_table}

abbrev no_weeks : (y m d : Text) → Option (ℕ × ℕ)
no_weeks y m d = none

abbrev coded : Text → Text → AnalysisRecord
coded created labels = feedback record {
  id = codes "F";
  content = codes "text";
  url_id = [];
  metadata = record {
    created = created;
    coding_level_1 = some labels;
    coding_level_2 = none;
    coding_level_3 = none;
  };
}

abbrev three_records : List AnalysisRecord
three_records =
    coded (codes "2024-05-01") (codes "Water, Food")
    ∷ coded (codes "2024-04-30") (codes "Water")
    ∷ coded (codes "soon") (codes "Water")
    ∷ []

abbrev level_1 : List Text
level_1 = codes "coding_level_1" ∷ []

abbrev small_table : CodingTrendTable
small_table = record {
  periods = codes "2024-04" ∷ codes "2024-05" ∷ [];
  cells =
      record { code = codes "Food"; period = codes "2024-05"; count = 1 }
      ∷ record { code = codes "Water"; period = codes "2024-04"; count = 1 }
      ∷ record { code = codes "Water"; period = codes "2024-05"; count = 1 }
      ∷ [];
}

three_records_table :
    build_coding_trend_table ascii no_weeks level_1 month three_records ≡ some small_table
unfolding build_coding_trend_table
three_records_table = refl

small_table_text :
    render_coding_trend_table small_table ≡ codes "code,2024-04,2024-05\nFood,0,1\nWater,1,1"
unfolding render_coding_trend_table decimal
small_table_text = refl

lookup-build_coding_trend_table_example :
    lookup (codes "Water") (codes "2024-05") small_table.cells
    ≡ occurrences ascii no_weeks level_1 month (codes "Water") (codes "2024-05") three_records
lookup-build_coding_trend_table_example =
    lookup-build_coding_trend_table ascii no_weeks level_1 month three_records three_records_table
      (codes "Water") (codes "2024-05")
