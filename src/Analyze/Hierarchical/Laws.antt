-- ===== src/Analyze/Hierarchical/Laws.antt =====
-- `analyze_hierarchical` of src/qfa/services/analyze.py ends, and its judges only decide on the confidence.
use qualitative_feedback_ana.Prelude.{
  ℕ, suc, ◌≡◌, refl, Bool, Option, none, some, List, [], ◌∷◌, Text, length, arith,
}
use qualitative_feedback_ana.Domain.Errors.{Error, Result, ok, err, analysis_error}
use qualitative_feedback_ana.Domain.Gather.{Returned, returns, gather-Returned}
use qualitative_feedback_ana.Domain.Chunks.{Chunk}
use qualitative_feedback_ana.Executor.Redaction.{Mapping}
use qualitative_feedback_ana.Trends.Table.{CodingTrendTable}
use qualitative_feedback_ana.Analyze.Reduce.{Outcome}
use qualitative_feedback_ana.Analyze.Reduce.Calls.{reduce_partials_ends}
use qualitative_feedback_ana.Prompts.Envelope.{build_analyze_user_message}
use qualitative_feedback_ana.Analyze.Judge.{FailsAsJudge, judge_chunk, judge_chunk_returns}
use qualitative_feedback_ana.Analyze.Phases.{judge_phase, present, map_phase}
use qualitative_feedback_ana.Analyze.Hierarchical.{
  AnalyzeService, AnalysisRequestModel, AnalysisCalls, AnalysisResultModel, judge_one, judge_chunks,
  after_reduce, after_map, analyze_chunks, analyze_hierarchical, reducer, rendered, prepare,
  map_chunks,
}

pub judge_phase-Returned :
    {Score : Type 0} (first_raised : Error → List Error → Error) (rs : List (Result (Option Score)))
    → Returned rs
    → judge_phase first_raised rs ≡ ok (returns rs)
unfolding judge_phase
judge_phase-Returned first_raised rs h = rw (judge_phase, gather-Returned first_raised rs h) refl

module _ (s : AnalyzeService) (request : AnalysisRequestModel) (anonymize : Bool)
    (calls : AnalysisCalls) where
  pub judge_chunks-Returned :
      (prompt : Text) (index : ℕ) (chunks : List Chunk) (partials : List (Option Text))
      → ((i : ℕ) (user_message partial : Text)
          → FailsAsJudge (calls.judge_reply i user_message partial))
      → Returned (judge_chunks s request anonymize calls prompt index chunks partials)
  unfolding judge_chunks judge_one
  judge_chunks-Returned prompt index [] partials h = tt
  judge_chunks-Returned prompt index (chunk ∷ chunks) [] h = tt
  judge_chunks-Returned prompt index (chunk ∷ chunks) (none ∷ partials) h =
      judge_chunks-Returned prompt (suc index) chunks partials h
  judge_chunks-Returned prompt index (chunk ∷ chunks) (some partial ∷ partials) h =
      let reply =
        calls.judge_reply index (build_analyze_user_message prompt chunk.records) partial in
      go (judge_chunk s.floats s.unicode s.same_letter s.quality_score (some partial) reply) _
        (judge_chunk_returns s.floats s.unicode s.same_letter s.quality_score (some partial) reply
          (h index _ partial))
        (judge_chunks-Returned prompt (suc index) chunks partials h)
    where
      go :
          (judged : Result (Option s.floats.Float)) (rest : List (Result (Option s.floats.Float)))
          → (score : Option s.floats.Float) × (judged ≡ ok score)
          → Returned rest
          → Returned (judged ∷ rest)
      go (ok score) _ returned rest = rest
      go (err e) _ (score, returned) rest = cc

  after_reduce_ends :
      (trend_table : Option CodingTrendTable) (prompt : Text) (mapping : Mapping)
      (chunks : List Chunk) (partials : List (Option Text)) (reduced : Outcome Text)
      {r : Result Text × List _}
      → reduced ≡ some r
      → (outcome : Result (AnalysisResultModel s.floats)) × (after_reduce s request anonymize calls
            trend_table prompt mapping chunks partials reduced
          ≡ some outcome)
  unfolding after_reduce
  after_reduce_ends trend_table prompt mapping chunks partials none e = cc
  after_reduce_ends trend_table prompt mapping chunks partials (some (err x, _)) e = (err x, refl)
  after_reduce_ends trend_table prompt mapping chunks partials (some (ok synthesis, _)) e =
      (_, refl)

  after_map_ends :
      (trend_table : Option CodingTrendTable) (prompt : Text) (mapping : Mapping)
      (chunks : List Chunk) (mapped : Result (List (Option Text)))
      → (outcome : Result (AnalysisResultModel s.floats)) × (after_map s request anonymize calls
            trend_table prompt mapping chunks mapped
          ≡ some outcome)
  unfolding after_map
  after_map_ends trend_table prompt mapping chunks (err e) = (err e, refl)
  after_map_ends trend_table prompt mapping chunks (ok partials) =
      after_reduce_ends trend_table prompt mapping chunks partials _
        (reduce_partials_ends (reducer s request anonymize calls prompt)
          (suc (length (present partials))) (present partials)
          (rendered s request anonymize calls trend_table) [] (omega arith) (omega arith)).1

  analyze_chunks_ends :
      (trend_table : Option CodingTrendTable) (prepared : Result (Text × Mapping × List Chunk))
      → (outcome : Result (AnalysisResultModel s.floats)) × (analyze_chunks s request anonymize
            calls trend_table prepared
          ≡ some outcome)
  unfolding analyze_chunks
  analyze_chunks_ends trend_table (err e) = (err e, refl)
  analyze_chunks_ends trend_table (ok (prompt, mapping, chunks)) =
      after_map_ends trend_table prompt mapping chunks
        (map_phase (map_chunks s request anonymize calls prompt 1 chunks))

  -- The analysis ends: with a result or with an error.
  pub analyze_hierarchical_ends :
      (outcome : Result (AnalysisResultModel s.floats)) × (analyze_hierarchical s request anonymize
          calls
        ≡ some outcome)
  unfolding analyze_hierarchical
  analyze_hierarchical_ends = go s.embedder _
    where
      go :
          (embedder : Option (List Text → Result (List s.hdbscan.Vector)))
          (trend_table : Option CodingTrendTable)
          → (outcome : Result (AnalysisResultModel s.floats)) × ((elim embedder
                as (λ _. Option (Result (AnalysisResultModel s.floats))) [
                  | none ↦ some (err analysis_error)
                  | some embed ↦
                      analyze_chunks s request anonymize calls trend_table
                        (prepare s request anonymize calls embed)
                ])
              ≡ some outcome)
      go none trend_table = (err analysis_error, refl)
      go (some embed) trend_table =
          analyze_chunks_ends trend_table (prepare s request anonymize calls embed)
