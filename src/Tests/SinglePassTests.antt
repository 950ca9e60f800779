-- ===== src/Tests/SinglePassTests.antt =====
-- Instances of the theorems on `analyze_bulk` of src/qfa/services/analyze.py: with a judge that times out, and with one that replies.
use qualitative_feedback_ana.Prelude.{ℕ, ◌≡◌, refl, true, none, Text, codes}
use qualitative_feedback_ana.Domain.Errors.{ok, err, llm_timeout}
use qualitative_feedback_ana.Prompts.Escape.{escape_for_tag_envelope, xml_quoteattr}
use qualitative_feedback_ana.Analyze.Judge.{FailsAsJudge}
use qualitative_feedback_ana.Analyze.Hierarchical.{period_or_default}
use qualitative_feedback_ana.Analyze.SinglePass.{
  SinglePass, Complete, analyse, analyze_bulk, judge_unavailable_explanation,
}
use qualitative_feedback_ana.Analyze.SinglePass.Laws.{IsAnalysed, analyze_bulk-IsAnalysed}
use qualitative_feedback_ana.Tests.HierarchicalTests.{service, request, report}

abbrev no_judge : Complete
no_judge system_message user_message timeout = err (llm_timeout none)

abbrev single : SinglePass
single = record {
  system_prompt = codes "Analyse.";
  judge_prompt = λ source prompt analysis. codes "Judge.";
  judge_user_message = codes "Go.";
  complete = λ system_message user_message timeout. ok (codes "All about water.");
  judge_complete = no_judge;
  analyse_time = 0;
  judge_time = 1000000;
}

unjudged :
    analyze_bulk service request 100000000 true single
    ≡ ok (record {
      result = codes "All about water.";
      judged = (none, judge_unavailable_explanation, none);
      coding_trends = report.coding_trends;
    })
unfolding analyze_bulk escape_for_tag_envelope xml_quoteattr period_or_default
unjudged = refl

no_judge-FailsAsJudge :
    (system_message user_message : Text) (timeout : ℕ)
    → FailsAsJudge (no_judge system_message user_message timeout)
no_judge-FailsAsJudge system_message user_message timeout = refl

analyze_bulk-IsAnalysed_example :
    IsAnalysed service request 100000000 true single
      (analyse service request 100000000 true single)
      (analyze_bulk service request 100000000 true single)
analyze_bulk-IsAnalysed_example =
    analyze_bulk-IsAnalysed service request 100000000 true single no_judge-FailsAsJudge
