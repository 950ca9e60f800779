-- ===== src/Tests/HierarchicalTests.antt =====
-- Instances of the theorems on `analyze_hierarchical` of src/qfa/services/analyze.py: three records make one chunk, which is judged or not.
use qualitative_feedback_ana.Prelude.{
  ℕ, ◌≡◌, ◌≢◌, refl, inl, true, false, none, some, Option, List, [], ◌∷◌, map, Text, codes, ascii,
  length, arith,
}
use qualitative_feedback_ana.Prelude.Int.{pos}
use qualitative_feedback_ana.Domain.Records.{AnalysisRecord}
use qualitative_feedback_ana.Domain.Chunks.{Chunk}
use qualitative_feedback_ana.Domain.Errors.{Result, ok, err, llm_timeout}
use qualitative_feedback_ana.Coding.Reply.{ascii_same_letter}
use qualitative_feedback_ana.Trends.Buckets.{month}
use qualitative_feedback_ana.Anonymizer.Placeholders.{lookup, placeholder_for, empty_space}
use qualitative_feedback_ana.Anonymizer.Placeholders.Restoring.{at_first}
use qualitative_feedback_ana.Analyze.Judge.{FailsAsJudge}
use qualitative_feedback_ana.Analyze.Confidence.{IsWeighed, conclude-IsWeighed}
use qualitative_feedback_ana.Analyze.Hierarchical.{
  AnalyzeService, AnalysisRequestModel, AnalysisCalls, AnalysisResultModel, conclude,
  analyze_hierarchical, restorable, is_retained_placeholder,
}
use qualitative_feedback_ana.Analyze.Hierarchical.Laws.{analyze_hierarchical_ends}
use qualitative_feedback_ana.Analyze.Hierarchical.Judges.{
  IsRejudged, rejudged, analyze_hierarchical-IsRejudged,
}
use qualitative_feedback_ana.Analyze.Hierarchical.Retained.{restorable-placeholder_for}
use qualitative_feedback_ana.Prelude.Decimal.{decimal}
use qualitative_feedback_ana.Clustering.Budget.{budgeted_chunks}
use qualitative_feedback_ana.Clustering.Dates.{sort_by_date, key, iso_date_prefix}
use qualitative_feedback_ana.Tests.Data.{three}
use qualitative_feedback_ana.Tests.CitationsTests.{is_word, is_letter}
use qualitative_feedback_ana.Tests.ClusteringTests.{by_number}
use qualitative_feedback_ana.Tests.CodingTests.{two_digit_floats}

abbrev pub service : AnalyzeService
service = record {
  unicode = ascii;
  is_word = is_word;
  is_letter = is_letter;
  floats = two_digit_floats;
  same_letter = ascii_same_letter;
  quality_score = λ c. c.faithfulness;
  hdbscan = by_number;
  embedder = some (λ texts. ok (map length texts));
  anonymize_batch = λ texts. (texts, []);
  deanonymize = λ text mapping. text;
  settings = record { chars_per_token = 4; llm_timeout = 30; max_total_tokens = 1000 };
  min_cluster_size = 5;
  clustering_metric = codes "euclidean";
  target_chunk_tokens = none;
  coding_trend_code_fields = [];
  default_coding_trend_period = month;
  iso_week = λ y m d. none;
  reduce_system_message = λ language. codes "Reduce.";
}

abbrev pub request : AnalysisRequestModel
request = record {
  feedback_records = three;
  prompt = codes "why";
  period = none;
  output_language = none;
  espo_feedback_base_url = none;
  espo_meeting_base_url = none;
}

abbrev no_judge : (index : ℕ) (user_message partial : Text) → Result Text
no_judge index user_message partial = err (llm_timeout none)

abbrev good_judge : (index : ℕ) (user_message partial : Text) → Result Text
good_judge index user_message partial =
    ok (codes "Faithfulness: 0.90\nCoverage: 0.80\nClarity: 0.70\nuncertainty_explanation: short")

abbrev calls : AnalysisCalls
calls = record {
  map_reply = λ index user_message. ok (codes "water");
  reduce_reply = λ earlier call. ok (codes "All about water.");
  judge_reply = no_judge;
  first_raised = λ e es. e;
}

abbrev pub report : AnalysisResultModel two_digit_floats
report = record {
  result = codes "All about water.";
  confidence = none;
  uncertainty_explanation =
      codes
        "Confidence unavailable: none of the 1 chunk(s) could be leaf-judged (all judge calls failed or timed out).";
  coding_trends = some record { periods = codes "2024-01" ∷ codes "2024-02" ∷ []; cells = [] };
}

unjudged : analyze_hierarchical service request true calls ≡ some (ok report)
unfolding analyze_hierarchical budgeted_chunks sort_by_date key iso_date_prefix decimal
unjudged = refl

analyze_hierarchical_ends_example :
    (outcome : Result (AnalysisResultModel two_digit_floats)) × (analyze_hierarchical service
        request true calls
      ≡ some outcome)
analyze_hierarchical_ends_example = analyze_hierarchical_ends service request true calls

good_judge-FailsAsJudge :
    (index : ℕ) (user_message partial : Text) → FailsAsJudge (good_judge index user_message partial)
good_judge-FailsAsJudge index user_message partial = tt

analyze_hierarchical-IsRejudged_example : IsRejudged report (
    analyze_hierarchical service request true
      (rejudged service request true calls good_judge (λ e es. e) good_judge-FailsAsJudge))
analyze_hierarchical-IsRejudged_example =
    analyze_hierarchical-IsRejudged service request true calls good_judge (λ e es. e)
      good_judge-FailsAsJudge unjudged

-- Two chunks with scores, and one between them without.
abbrev chunk_of : List AnalysisRecord → Chunk
chunk_of records = record { label = pos 0; is_uncategorised = false; records = records }

abbrev three_chunks : List Chunk
three_chunks = chunk_of three ∷ chunk_of three ∷ chunk_of three ∷ []

abbrev some_scores : List (Option ℕ)
some_scores = some 90 ∷ none ∷ some 70 ∷ []

conclude-IsWeighed_example :
    let ended =
      conclude service request true calls none [] three_chunks (codes "Water.") some_scores in
    IsWeighed two_digit_floats some_scores three_chunks ended.confidence
      ended.uncertainty_explanation
conclude-IsWeighed_example =
    conclude-IsWeighed service request true calls none [] three_chunks (codes "Water.") some_scores
      refl (omega arith, (omega arith, (omega arith, tt)))

not_pii : codes "Anna" ≢ codes "PII"
not_pii e = cc

restorable-placeholder_for_example :
    let (placeholder, after) = placeholder_for (codes "Anna") (codes "PERSON") empty_space in
    (lookup placeholder (restorable after.mapping) ≡ none)
    × ((p : Text)
        → is_retained_placeholder p ≡ false
        → lookup p (restorable after.mapping) ≡ lookup p after.mapping)
restorable-placeholder_for_example =
    restorable-placeholder_for (codes "Anna") (codes "PERSON") empty_space at_first not_pii
      (inl refl)
