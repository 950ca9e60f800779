-- ===== src/Analyze/Hierarchical/Judges.antt =====
-- The judges of `analyze_hierarchical` in src/qfa/services/analyze.py decide on the confidence and on nothing else.
use qualitative_feedback_ana.Prelude.{ℕ, ◌≡◌, refl, ap, Bool, Option, none, some, List, Text}
use qualitative_feedback_ana.Domain.Errors.{
  Error, Result, ok, err, analysis_error, >>=-returned, ok-injective,
}
use qualitative_feedback_ana.Coding.Scores.{Floats}
use qualitative_feedback_ana.Domain.Gather.{returns}
use qualitative_feedback_ana.Domain.Chunks.{Chunk}
use qualitative_feedback_ana.Executor.Redaction.{Mapping}
use qualitative_feedback_ana.Trends.Table.{CodingTrendTable}
use qualitative_feedback_ana.Analyze.Reduce.{Outcome}
use qualitative_feedback_ana.Analyze.Judge.{FailsAsJudge}
use qualitative_feedback_ana.Analyze.Phases.{judge_phase, map_phase}
use qualitative_feedback_ana.Analyze.Hierarchical.{
  AnalyzeService, AnalysisRequestModel, AnalysisCalls, AnalysisResultModel, judge_chunks, conclude,
  after_reduce, after_map, analyze_chunks, analyze_hierarchical, prepare, map_chunks,
}
use qualitative_feedback_ana.Analyze.Hierarchical.Laws.{judge_phase-Returned, judge_chunks-Returned}

-- A result with the same text and the same table.
abbrev pub IsRejudged :
    {F : Floats} → AnalysisResultModel F → Option (Result (AnalysisResultModel F)) → Type 0
IsRejudged {F} report run =
    (other : AnalysisResultModel F) × (run ≡ some (ok other))
    × (other.result ≡ report.result)
    × (other.coding_trends ≡ report.coding_trends)

module _ (s : AnalyzeService) (request : AnalysisRequestModel) (anonymize : Bool)
    (calls : AnalysisCalls) (judge_reply : (index : ℕ) (user_message partial : Text) → Result Text)
    (first_raised : Error → List Error → Error)
    (fails_as_judge : (index : ℕ) (user_message partial : Text)
      → FailsAsJudge (judge_reply index user_message partial)) where
  -- The same run with other judges.
  abbrev pub rejudged : AnalysisCalls
  rejudged = record calls { judge_reply = judge_reply; first_raised = first_raised }

  after_reduce-rejudged :
      (trend_table : Option CodingTrendTable) (prompt : Text) (mapping : Mapping)
      (chunks : List Chunk) (partials : List (Option Text)) (reduced : Outcome Text)
      {report : AnalysisResultModel s.floats}
      → after_reduce s request anonymize calls trend_table prompt mapping chunks partials reduced
        ≡ some (ok report)
      → IsRejudged report (
          after_reduce s request anonymize rejudged trend_table prompt mapping chunks partials
            reduced)
  unfolding after_reduce conclude
  after_reduce-rejudged trend_table prompt mapping chunks partials none e = cc
  after_reduce-rejudged trend_table prompt mapping chunks partials (some (err x, _)) e = cc
  after_reduce-rejudged trend_table prompt mapping chunks partials (some (ok synthesis, _)) {report}
        e =
      let judged =
        judge_phase-Returned first_raised
          (judge_chunks s request anonymize rejudged prompt 1 chunks partials)
          (judge_chunks-Returned s request anonymize rejudged prompt 1 chunks partials
            fails_as_judge) in
      let (scores, _, concluded) =
        >>=-returned
          (judge_phase calls.first_raised
            (judge_chunks s request anonymize calls prompt 1 chunks partials))
          (λ scores.
            ok (conclude s request anonymize calls trend_table mapping chunks synthesis scores))
          {last = report} (cc e) in
      let same = ok-injective concluded in
      (
        conclude s request anonymize rejudged trend_table mapping chunks synthesis
            (returns (judge_chunks s request anonymize rejudged prompt 1 chunks partials)),
        rw judged refl,
        ap (λ r. r.result) same,
        ap (λ r. r.coding_trends) same,
      )

  after_map-rejudged :
      (trend_table : Option CodingTrendTable) (prompt : Text) (mapping : Mapping)
      (chunks : List Chunk) (mapped : Result (List (Option Text)))
      {report : AnalysisResultModel s.floats}
      → after_map s request anonymize calls trend_table prompt mapping chunks mapped
        ≡ some (ok report)
      → IsRejudged report
          (after_map s request anonymize rejudged trend_table prompt mapping chunks mapped)
  unfolding after_map
  after_map-rejudged trend_table prompt mapping chunks (err x) e = cc
  after_map-rejudged trend_table prompt mapping chunks (ok partials) e =
      after_reduce-rejudged trend_table prompt mapping chunks partials _ e

  analyze_chunks-rejudged :
      (trend_table : Option CodingTrendTable) (prepared : Result (Text × Mapping × List Chunk))
      {report : AnalysisResultModel s.floats}
      → analyze_chunks s request anonymize calls trend_table prepared ≡ some (ok report)
      → IsRejudged report (analyze_chunks s request anonymize rejudged trend_table prepared)
  unfolding analyze_chunks
  analyze_chunks-rejudged trend_table (err x) e = cc
  analyze_chunks-rejudged trend_table (ok (prompt, mapping, chunks)) e =
      after_map-rejudged trend_table prompt mapping chunks
        (map_phase (map_chunks s request anonymize calls prompt 1 chunks)) e

  -- If the analysis returns with some judges, then it returns with all others that only fail as judges do, and with the same text and the same
  -- trend table.
  pub analyze_hierarchical-IsRejudged :
      {report : AnalysisResultModel s.floats}
      → analyze_hierarchical s request anonymize calls ≡ some (ok report)
      → IsRejudged report (analyze_hierarchical s request anonymize rejudged)
  unfolding analyze_hierarchical
  analyze_hierarchical-IsRejudged {report} e = go s.embedder _ e
    where
      go :
          (embedder : Option (List Text → Result (List s.hdbscan.Vector)))
          (trend_table : Option CodingTrendTable)
          → (elim embedder as (λ _. Option (Result (AnalysisResultModel s.floats))) [
            | none ↦ some (err analysis_error)
            | some embed ↦
                analyze_chunks s request anonymize calls trend_table
                  (prepare s request anonymize calls embed)
          ])
            ≡ some (ok report)
          → IsRejudged report
              (elim embedder as (λ _. Option (Result (AnalysisResultModel s.floats))) [
                | none ↦ some (err analysis_error)
                | some embed ↦
                    analyze_chunks s request anonymize rejudged trend_table
                      (prepare s request anonymize calls embed)
              ])
      go none trend_table h = cc
      go (some embed) trend_table h =
          analyze_chunks-rejudged trend_table (prepare s request anonymize calls embed) h
