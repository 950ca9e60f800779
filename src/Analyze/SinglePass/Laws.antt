-- ===== src/Analyze/SinglePass/Laws.antt =====
-- What the judge has to do with the result of `analyze_bulk` in src/qfa/services/analyze.py.
use qualitative_feedback_ana.Prelude.{
  ℕ, ◌≡◌, ◌≢◌, refl, Bool, true, false, none, some, [], Text, leb, ltb, ◌-◌, if◌then◌else◌,
}
use qualitative_feedback_ana.Domain.Errors.{Result, ok, err, ◌>>=◌, >>=-returned, analysis_timeout}
use qualitative_feedback_ana.Executor.{
  ExecutorSettings, check_deadline_and_get_timeout, minimum_attempt_window,
}
use qualitative_feedback_ana.Executor.Redaction.{Mapping}
use qualitative_feedback_ana.Trends.Table.{build_coding_trend_table}
use qualitative_feedback_ana.Analyze.Judge.{
  JudgeComponents, FailsAsJudge, FailsAsJudge-bind, parse_analyze_judge_response-FailsAsJudge,
}
use qualitative_feedback_ana.Analyze.Judge.Components.{InUnit, parse_analyze_judge_response-InUnit}
use qualitative_feedback_ana.Analyze.Hierarchical.{
  AnalyzeService, AnalysisRequestModel, period_or_default,
}
use qualitative_feedback_ana.Analyze.SinglePass.{
  SinglePass, BulkResult, Judged, judge_unavailable_explanation, judge_or_unavailable, analyse,
  judge_analysis, cited_answer, analyze_bulk,
}

-- Too little time is a failure of a judge.
pub check_deadline-FailsAsJudge :
    (settings : ExecutorSettings) (now deadline : ℕ)
    → FailsAsJudge (check_deadline_and_get_timeout settings now deadline)
unfolding check_deadline_and_get_timeout
check_deadline-FailsAsJudge settings now deadline =
    go (leb deadline now) (ltb (deadline - now) minimum_attempt_window) _
  where
    go :
        (late short : Bool) (timeout : ℕ)
        → FailsAsJudge (
            if late
            then err analysis_timeout
            else if short
            then err analysis_timeout
            else ok timeout)
    go true short timeout = refl
    go false true timeout = refl
    go false false timeout = tt

module _ (s : AnalyzeService) (request : AnalysisRequestModel) (deadline : ℕ) (anonymize : Bool)
    (p : SinglePass) where
  -- A score with its components, from 0 to 1, and an explanation; or neither score nor components, and the constant explanation.
  abbrev pub IsJudged : Judged s → Type 0
  IsJudged (some score, explanation, some components) =
      (score ≡ s.quality_score components) × InUnit s.floats components × (explanation ≢ [])
  IsJudged (none, explanation, none) = explanation ≡ judge_unavailable_explanation
  IsJudged _ = ⊥

  -- Where the answer is there, a result is too; where it is not, the error is that of the analysis.
  abbrev pub IsAnalysed : Result (Text × Text × Mapping × Text) → Result (BulkResult s) → Type 0
  IsAnalysed (err e) run = run ≡ err e
  IsAnalysed (ok (message, prompt, mapping, answer)) run =
      (report : BulkResult s) × (run ≡ ok report)
      × (report.result ≡ cited_answer s request deadline anonymize mapping answer)
      × (report.coding_trends
          ≡ build_coding_trend_table s.unicode s.iso_week s.coding_trend_code_fields
              (period_or_default s request.period) request.feedback_records)
      × IsJudged report.judged

  module _
      (fails_as_judge : (system_message user_message : Text) (timeout : ℕ)
        → FailsAsJudge (p.judge_complete system_message user_message timeout)) where
    judge_analysis-FailsAsJudge :
        (message prompt answer : Text)
        → FailsAsJudge (judge_analysis s request deadline anonymize p message prompt answer)
    unfolding judge_analysis
    judge_analysis-FailsAsJudge message prompt answer =
        FailsAsJudge-bind (check_deadline_and_get_timeout s.settings p.judge_time deadline) _
          (check_deadline-FailsAsJudge s.settings p.judge_time deadline)
          (λ timeout.
            FailsAsJudge-bind (p.judge_complete _ p.judge_user_message timeout) _
              (fails_as_judge _ p.judge_user_message timeout)
              (parse_analyze_judge_response-FailsAsJudge s.floats s.unicode s.same_letter))

    judged_lem :
        (reply : Result (JudgeComponents s.floats × Text))
        → FailsAsJudge reply
        → ((c : JudgeComponents s.floats) (x : Text)
            → reply ≡ ok (c, x)
            → InUnit s.floats c × (x ≢ []))
        → (judged : Judged s) × (judge_or_unavailable s reply ≡ ok judged) × IsJudged judged
    unfolding judge_or_unavailable
    judged_lem (ok (c, x)) fails valid =
        let (inside, nonempty) = valid c x refl in
        ((some (s.quality_score c), x, some c), refl, (refl, inside, nonempty))
    judged_lem (err e) fails valid =
        ((none, judge_unavailable_explanation, none), rw fails refl, refl)

    judge_analysis-InUnit :
        (message prompt answer : Text) (c : JudgeComponents s.floats) (x : Text)
        → judge_analysis s request deadline anonymize p message prompt answer ≡ ok (c, x)
        → InUnit s.floats c × (x ≢ [])
    unfolding judge_analysis
    judge_analysis-InUnit message prompt answer c x h =
        let (timeout, _, replied) =
          >>=-returned (check_deadline_and_get_timeout s.settings p.judge_time deadline) _ h in
        let (reply, _, read) =
          >>=-returned (p.judge_complete _ p.judge_user_message timeout) _ replied in
        parse_analyze_judge_response-InUnit s.floats s.unicode s.same_letter reply read

    after_analyse :
        (analysed : Result (Text × Text × Mapping × Text))
        → IsAnalysed analysed (
            analysed >>= λ (message, prompt, mapping, answer).
            judge_or_unavailable s
              (judge_analysis s request deadline anonymize p message prompt answer)
            >>= λ judged. ok (record {
              result = cited_answer s request deadline anonymize mapping answer;
              judged = judged;
              coding_trends =
                  build_coding_trend_table s.unicode s.iso_week s.coding_trend_code_fields
                    (period_or_default s request.period)
                    request.feedback_records;
            }))
    after_analyse (err e) = refl
    after_analyse (ok (message, prompt, mapping, answer)) =
        let (judged, returned, is_judged) =
          judged_lem (judge_analysis s request deadline anonymize p message prompt answer)
            (judge_analysis-FailsAsJudge message prompt answer)
            (judge_analysis-InUnit message prompt answer) in
        (
          record {
            result = cited_answer s request deadline anonymize mapping answer;
            judged = judged;
            coding_trends =
                build_coding_trend_table s.unicode s.iso_week s.coding_trend_code_fields
                  (period_or_default s request.period) request.feedback_records;
          },
          rw returned refl,
          refl,
          refl,
          is_judged,
        )

    -- If the judge only fails as judges do, then the error of the single pass is that of the analysis, and where there is an answer, there is a
    -- result with the answer restored and cited, and with the trend table, whatever the judge does and however late it is. The result has a score
    -- with its components, from 0 to 1, and an explanation, or neither score nor components, and the explanation that says so.
    pub analyze_bulk-IsAnalysed :
        IsAnalysed
          (analyse s request deadline anonymize p)
          (analyze_bulk s request deadline anonymize p)
    unfolding analyze_bulk
    analyze_bulk-IsAnalysed = after_analyse (analyse s request deadline anonymize p)
