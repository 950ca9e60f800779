-- ===== src/Analyze/Hierarchical.antt =====
-- `analyze_hierarchical` of src/qfa/services/analyze.py: redact, embed, cluster, map, reduce, judge, restore. How a call of the LLM ends is an
-- argument, by the number of its chunk and what it is sent; so are the anonymizer, the embedder and the system prompt whose length counts.
pub mod Laws
pub mod Judges
pub mod Retained
use qualitative_feedback_ana.Prelude.{
  ℕ, suc, ◌≡◌, Bool, true, false, not, Option, none, some, List, [], ◌∷◌, ◌++◌, map, Text, codes,
  Unicode, length, any, keep, starts_with, if◌then◌else◌,
}
use qualitative_feedback_ana.Domain.Errors.{Error, Result, ok, err, ◌>>=◌, analysis_error}
use qualitative_feedback_ana.Domain.Records.{AnalysisRecord, record_text}
use qualitative_feedback_ana.Domain.Chunks.{Chunk}
use qualitative_feedback_ana.Coding.Scores.{Floats}
use qualitative_feedback_ana.Clustering.Records.{Hdbscan, cluster_records}
use qualitative_feedback_ana.Executor.{ExecutorSettings}
use qualitative_feedback_ana.Executor.Redaction.{Mapping, anonymize_records_and_prompt}
use qualitative_feedback_ana.Prompts.Envelope.{build_analyze_user_message}
use qualitative_feedback_ana.Trends.Buckets.{TrendPeriod}
use qualitative_feedback_ana.Trends.Table.{
  CodingTrendTable, build_coding_trend_table, render_coding_trend_table,
}
use qualitative_feedback_ana.Citations.Format.{format_record_citations}
use qualitative_feedback_ana.Analyze.Reduce.{Call, Reducer, Outcome, reduce_partials}
use qualitative_feedback_ana.Analyze.Judge.{JudgeComponents, judge_chunk}
use qualitative_feedback_ana.Analyze.Phases.{
  map_phase, judge_phase, present, weighed, confidence_of,
}

pub record AnalyzeService : Type 1 where
  pub unicode : Unicode
  -- `\w` and `[^\W\d_]`
  pub is_word : ℕ → Bool
  pub is_letter : ℕ → Bool
  pub floats : Floats
  pub same_letter : ℕ → ℕ → Bool
  pub quality_score : JudgeComponents floats → floats.Float
  pub hdbscan : Hdbscan
  pub embedder : Option (List Text → Result (List hdbscan.Vector))
  pub anonymize_batch : List Text → List Text × Mapping
  pub deanonymize : Text → Mapping → Text
  pub settings : ExecutorSettings
  pub min_cluster_size : ℕ
  pub clustering_metric : Text
  pub target_chunk_tokens : Option ℕ
  pub coding_trend_code_fields : List Text
  pub default_coding_trend_period : TrendPeriod
  pub iso_week : (y m d : Text) → Option (ℕ × ℕ)
  pub reduce_system_message : (output_language : Option Text) → Text

pub record AnalysisRequestModel : Type 0 where
  pub feedback_records : List AnalysisRecord
  pub prompt : Text
  pub period : Option TrendPeriod
  pub output_language : Option Text
  pub espo_feedback_base_url : Option Text
  pub espo_meeting_base_url : Option Text

pub record AnalysisCalls : Type 0 where
  pub map_reply : (index : ℕ) (user_message : Text) → Result Text
  pub reduce_reply : (earlier : List Call) → Call → Result Text
  pub judge_reply : (index : ℕ) (user_message partial : Text) → Result Text
  pub first_raised : Error → List Error → Error

pub record AnalysisResultModel (F : Floats) : Type 0 where
  pub result : Text
  pub confidence : Option F.Float
  pub uncertainty_explanation : Text
  pub coding_trends : Option CodingTrendTable

-- `_ANALYZE_RETAINED_PLACEHOLDER_TYPES`
abbrev pub retained_placeholder_types : List Text
retained_placeholder_types = codes "PERSON" ∷ codes "NRP" ∷ []

unfoldable pub is_retained_placeholder : (placeholder : Text) → Bool
is_retained_placeholder placeholder =
    any (λ entity_type. starts_with (codes "<" ++ (entity_type ++ codes "_")) placeholder)
      retained_placeholder_types

unfoldable pub restorable : Mapping → Mapping
unfolding is_retained_placeholder
restorable mapping = keep (λ entry. not (is_retained_placeholder entry.0)) mapping

unfoldable pub period_or_default : AnalyzeService → Option TrendPeriod → TrendPeriod
period_or_default s none = s.default_coding_trend_period
period_or_default s (some period) = period

module _ (s : AnalyzeService) (request : AnalysisRequestModel) (anonymize : Bool)
    (calls : AnalysisCalls) where
  unfoldable pub map_chunks : (analyst_prompt : Text) (index : ℕ) → List Chunk → List (Result Text)
  unfolding build_analyze_user_message
  map_chunks analyst_prompt index [] = []
  map_chunks analyst_prompt index (chunk ∷ chunks) =
      calls.map_reply index (build_analyze_user_message analyst_prompt chunk.records)
      ∷ map_chunks analyst_prompt (suc index) chunks

  judge_one :
      (analyst_prompt : Text) (index : ℕ) → Chunk → Option Text → Result (Option s.floats.Float)
  unfolding judge_chunk build_analyze_user_message
  judge_one analyst_prompt index chunk none = ok none
  judge_one analyst_prompt index chunk (some partial) =
      judge_chunk s.floats s.unicode s.same_letter s.quality_score (some partial)
        (calls.judge_reply index (build_analyze_user_message analyst_prompt chunk.records) partial)

  unfoldable pub judge_chunks :
      (analyst_prompt : Text) (index : ℕ)
      → List Chunk
      → List (Option Text)
      → List (Result (Option s.floats.Float))
  unfolding judge_one
  judge_chunks analyst_prompt index (chunk ∷ chunks) (partial ∷ partials) =
      judge_one analyst_prompt index chunk partial
      ∷ judge_chunks analyst_prompt (suc index) chunks partials
  judge_chunks analyst_prompt index _ _ = []

  -- What is made of a synthesis and the scores.
  unfoldable pub conclude :
      (trend_table : Option CodingTrendTable)
      → Mapping
      → List Chunk
      → (synthesis : Text) → List (Option s.floats.Float)
      → AnalysisResultModel s.floats
  unfolding weighed confidence_of restorable format_record_citations
  conclude trend_table mapping chunks synthesis scores =
      let (confidence, uncertainty) =
        confidence_of s.floats (length chunks)
          (weighed scores (map (λ c. length c.records) chunks)) in
      record {
        result =
            format_record_citations s.unicode s.is_word s.is_letter request.feedback_records
              request.espo_feedback_base_url request.espo_meeting_base_url
              (if anonymize then s.deanonymize synthesis (restorable mapping) else synthesis);
        confidence = confidence;
        uncertainty_explanation = uncertainty;
        coding_trends = trend_table;
      }

  reducer : (analyst_prompt : Text) → Reducer
  reducer analyst_prompt = record {
    settings = s.settings;
    analyst_prompt = analyst_prompt;
    system_message = s.reduce_system_message request.output_language;
    answer = calls.reduce_reply;
  }

  rendered : Option CodingTrendTable → Option Text
  unfolding render_coding_trend_table
  rendered none = none
  rendered (some table) = some (render_coding_trend_table table)

  -- The judges follow the synthesis. `none` would be fuel that was not enough for the reduction.
  after_reduce :
      (trend_table : Option CodingTrendTable) (analyst_prompt : Text)
      → Mapping
      → List Chunk
      → (partials : List (Option Text)) → Outcome Text
      → Option (Result (AnalysisResultModel s.floats))
  unfolding judge_chunks judge_phase conclude
  after_reduce trend_table analyst_prompt mapping chunks partials none = none
  after_reduce trend_table analyst_prompt mapping chunks partials (some (err e, _)) = some (err e)
  after_reduce trend_table analyst_prompt mapping chunks partials (some (ok synthesis, _)) = some (
      judge_phase calls.first_raised (judge_chunks analyst_prompt 1 chunks partials) >>= λ scores.
      ok (conclude trend_table mapping chunks synthesis scores))

  after_map :
      (trend_table : Option CodingTrendTable) (analyst_prompt : Text)
      → Mapping
      → List Chunk
      → Result (List (Option Text))
      → Option (Result (AnalysisResultModel s.floats))
  unfolding reducer rendered reduce_partials after_reduce
  after_map trend_table analyst_prompt mapping chunks (err e) = some (err e)
  after_map trend_table analyst_prompt mapping chunks (ok partials) =
      after_reduce trend_table analyst_prompt mapping chunks partials (
        reduce_partials (reducer analyst_prompt) (suc (length (present partials)))
          (present partials) (rendered trend_table) [])

  -- The phases after clustering.
  unfoldable pub analyze_chunks :
      (trend_table : Option CodingTrendTable)
      → Result (Text × Mapping × List Chunk)
      → Option (Result (AnalysisResultModel s.floats))
  unfolding map_chunks map_phase after_map
  analyze_chunks trend_table (err e) = some (err e)
  analyze_chunks trend_table (ok (analyst_prompt, mapping, chunks)) =
      after_map trend_table analyst_prompt mapping chunks
        (map_phase (map_chunks analyst_prompt 1 chunks))

  -- The prompt, the mapping and the chunks of the redacted records.
  prepare :
      (embed : List Text → Result (List s.hdbscan.Vector)) → Result (Text × Mapping × List Chunk)
  unfolding anonymize_records_and_prompt cluster_records
  prepare embed =
      anonymize_records_and_prompt s.anonymize_batch request.feedback_records request.prompt
        anonymize
      >>= λ redacted.
          let (records, prompt, mapping) = redacted in
          embed (map record_text records) >>= λ vectors.
          cluster_records s.unicode s.hdbscan records vectors s.min_cluster_size
            s.settings.max_total_tokens s.settings.chars_per_token s.clustering_metric
            s.target_chunk_tokens
          >>= λ chunks. ok (prompt, mapping, chunks)

  unfoldable pub analyze_hierarchical : Option (Result (AnalysisResultModel s.floats))
  unfolding prepare build_coding_trend_table period_or_default analyze_chunks
  analyze_hierarchical =
      let trend_table =
        build_coding_trend_table s.unicode s.iso_week s.coding_trend_code_fields
          (period_or_default s request.period) request.feedback_records in
      elim s.embedder [
        | none ↦ some (err analysis_error)
        | some embed ↦ analyze_chunks trend_table (prepare embed)
      ]
