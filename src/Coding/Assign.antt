-- ===== src/Coding/Assign.antt =====
-- `assign_codes` of src/qfa/services/coding.py. What the service meets outside is `CodingCalls`: the clock, the pick connection,
-- the judge calls by option and level, and, since the paths are judged concurrently, which of several failures
-- is the first in time.
pub mod Laws
pub mod Returns
use mathlib.Core.Option
use qualitative_feedback_ana.Prelude.{
  ℕ, ◌≡◌, Bool, true, false, not, Option, none, some, List, [], ◌∷◌, ◌++◌, map, Text, codes, take,
  keep, length, get_elem?, if◌then◌else◌,
}
use qualitative_feedback_ana.Prelude.Int.{ℤ}
use qualitative_feedback_ana.Domain.Gather.{failures, returns, gather}
use qualitative_feedback_ana.Domain.Errors.{
  Error, Result, ok, err, index_error, llm_response_parse, ◌>>=◌,
}
use qualitative_feedback_ana.Domain.Records.{FeedbackRecordModel}
use qualitative_feedback_ana.Executor.{check_token_limit, check_deadline_and_get_timeout}
use qualitative_feedback_ana.Coding.Framework.{CodingNodes, CodePath, flatten_coding_nodes}
use qualitative_feedback_ana.Coding.Scores.{Floats}
use qualitative_feedback_ana.Coding.Judging.{
  JudgeCall, CodingService, ScoredCode, check_coding_deadline, judge_selected_path,
}
use qualitative_feedback_ana.Coding.Picking.{build_coding_message, valid_indices}
use qualitative_feedback_ana.Coding.Ranking.{
  no_coding_lead, nothing_relevant, ranked, explanation_of, combine_rejected_explanations,
}

pub record AssignedCodeModel (F : Floats) : Type 0 where
  pub coding_level_1_id : Option Text
  pub coding_level_1_name : Option Text
  pub coding_level_2_id : Option Text
  pub coding_level_2_name : Option Text
  pub coding_level_3_id : Option Text
  pub coding_level_3_name : Option Text
  pub confidence_level_1 : Option F.Float
  pub confidence_level_2 : Option F.Float
  pub confidence_level_3 : Option F.Float
  pub confidence : Option F.Float
  pub explanation : Text

pub record CodedFeedbackRecordModel (F : Floats) : Type 0 where
  pub feedback_record_id : Text
  pub assigned_codes : List (AssignedCodeModel F)

pub record CodingAssignmentRequestModel (F : Floats) : Type 0 where
  pub feedback_record : FeedbackRecordModel
  pub root_codes : CodingNodes
  pub max_codes : ℕ
  pub confidence_threshold : Option F.Float
  pub tenant_id : Text

pub record CodingCalls : Type 0 where
  pub started : ℕ
  pub picked : ℕ
  pub pick : (system_message user_message tenant_id : Text) (timeout : ℕ) → Result (List ℤ)
  pub judge : (option level : ℕ) → JudgeCall
  pub first_raised : Error → List Error → Error

-- An entry with an explanation only.
abbrev pub uncoded : (F : Floats) → Text → AssignedCodeModel F
uncoded F text = record {
  coding_level_1_id = none;
  coding_level_1_name = none;
  coding_level_2_id = none;
  coding_level_2_name = none;
  coding_level_3_id = none;
  coding_level_3_name = none;
  confidence_level_1 = none;
  confidence_level_2 = none;
  confidence_level_3 = none;
  confidence = none;
  explanation = text;
}

abbrev pub id_at : CodePath → ℕ → Option Text
id_at path level = Option.map (λ step. step.0) (get_elem? path level)

abbrev pub name_at : CodePath → ℕ → Option Text
name_at path level = Option.map (λ step. step.1) (get_elem? path level)

unfoldable pub assigned_code : (F : Floats) → F.Float × ScoredCode F → AssignedCodeModel F
unfolding explanation_of
assigned_code F (confidence, c) = record {
  coding_level_1_id = id_at c.path 0;
  coding_level_1_name = name_at c.path 0;
  coding_level_2_id = id_at c.path 1;
  coding_level_2_name = name_at c.path 1;
  coding_level_3_id = id_at c.path 2;
  coding_level_3_name = name_at c.path 2;
  confidence_level_1 = get_elem? c.scores 0;
  confidence_level_2 = get_elem? c.scores 1;
  confidence_level_3 = get_elem? c.scores 2;
  confidence = some confidence;
  explanation = explanation_of F c;
}

-- A reply that does not parse is an empty pick.
abbrev tolerate : Result (List ℤ) → Result (List ℤ)
tolerate (err (llm_response_parse status)) = ok []
tolerate (err e) = err e
tolerate (ok selected) = ok selected

module _ (s : CodingService) (request : CodingAssignmentRequestModel s.floats) (calls : CodingCalls)
    (deadline : ℕ) where
  abbrev pub coded_as : List (AssignedCodeModel s.floats) → List (CodedFeedbackRecordModel s.floats)
  coded_as assigned =
      record { feedback_record_id = request.feedback_record.id; assigned_codes = assigned } ∷ []

  judge_found : (index : ℕ) → Option CodePath → Result (ScoredCode s.floats × Bool)
  unfolding judge_selected_path
  judge_found index none = err index_error
  judge_found index (some path) =
      judge_selected_path s request.feedback_record request.tenant_id deadline path
        request.confidence_threshold (calls.judge index)

  unfoldable pub judge_option : List CodePath → (index : ℕ) → Result (ScoredCode s.floats × Bool)
  unfolding judge_found
  judge_option options index = judge_found index (get_elem? options index)

  -- What is reported, by what was applied, what was rejected and the threshold.
  explain_or_apply :
      (top : List (s.floats.Float × ScoredCode s.floats)) (rejected : List (ScoredCode s.floats))
      (threshold : Option s.floats.Float)
      → Result (List (AssignedCodeModel s.floats))
  unfolding assigned_code combine_rejected_explanations
  explain_or_apply (c ∷ top) rejected threshold = ok (map (assigned_code s.floats) (c ∷ top))
  explain_or_apply [] (c ∷ rejected) (some threshold) =
      combine_rejected_explanations s.floats (c ∷ rejected) threshold >>= λ text.
      ok (uncoded s.floats text ∷ [])
  explain_or_apply [] rejected threshold =
      ok (uncoded s.floats (no_coding_lead ++ nothing_relevant) ∷ [])

  apply_judged : List (ScoredCode s.floats × Bool) → Result (List (AssignedCodeModel s.floats))
  unfolding ranked explain_or_apply
  apply_judged judged =
      let candidates = map (λ o. o.0) (keep (λ o. not o.1) judged) in
      let rejected = map (λ o. o.0) (keep (λ o. o.1) judged) in
      ranked s.floats candidates >>= λ order.
      explain_or_apply (take request.max_codes order) rejected request.confidence_threshold

  -- The pick call, with its guards.
  unfoldable pub pick_codes : (user_message : Text) → Result (List ℤ)
  unfolding check_token_limit check_deadline_and_get_timeout
  pick_codes user_message = do
    _ ← check_token_limit s.settings s.coding_system user_message
    timeout ← check_deadline_and_get_timeout s.settings calls.picked deadline
    tolerate (calls.pick s.coding_system (s.anonymize user_message) request.tenant_id timeout)

  assign_picked : List CodePath → List ℤ → Result (List (AssignedCodeModel s.floats))
  unfolding judge_option apply_judged gather valid_indices
  assign_picked options selected =
      gather calls.first_raised
        (map (judge_option options) (valid_indices selected (length options)))
      >>= λ judged. apply_judged judged

  assign_message :
      List CodePath → (user_message : Text) → Result (List (AssignedCodeModel s.floats))
  unfolding pick_codes assign_picked
  assign_message options [] = ok (uncoded s.floats (no_coding_lead ++ nothing_relevant) ∷ [])
  assign_message options (c ∷ message) =
      pick_codes (c ∷ message) >>= λ selected. assign_picked options selected

  unfoldable pub assign_codes : Result (List (CodedFeedbackRecordModel s.floats))
  unfolding check_coding_deadline flatten_coding_nodes build_coding_message assign_message
  assign_codes = check_coding_deadline calls.started deadline >>= λ _.
      let options = flatten_coding_nodes request.root_codes [] in
      assign_message options (build_coding_message request.feedback_record options) >>= λ assigned.
      ok (coded_as assigned)
