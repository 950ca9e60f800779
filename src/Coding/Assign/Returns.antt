-- ===== src/Coding/Assign/Returns.antt =====
-- `assign_codes` of src/qfa/services/coding.py returns where the calls that it makes return.
use qualitative_feedback_ana.Prelude.{
  ℕ, ◌≤◌, ◌<◌, ◌≡◌, refl, ap, Bool, true, false, not, Option, none, some, List, [], ◌∷◌, map, Text,
  arith, length, length-append, take, keep, leb, All, All-map, All-intro, All-keep, All-map_list,
}
use qualitative_feedback_ana.Prelude.Int.{ℤ}
use qualitative_feedback_ana.Domain.Errors.{Result, ok, err}
use qualitative_feedback_ana.Coding.Framework.{
  CodingNodes, CodePath, flatten_coding_nodes, Leads, stop, down, next,
  flatten_coding_nodes-iff-Leads,
}
use qualitative_feedback_ana.Coding.Judging.{
  CodingService, ScoredCode, IsOutcome, check_coding_deadline,
}
use qualitative_feedback_ana.Coding.Picking.{
  build_coding_message, valid_indices, valid_indices-IsSelection,
}
use qualitative_feedback_ana.Coding.Ranking.{ranked_returns, combine_rejected_returns}
use qualitative_feedback_ana.Coding.Assign.{
  AssignedCodeModel, uncoded, CodedFeedbackRecordModel, CodingAssignmentRequestModel, CodingCalls,
  judge_option, explain_or_apply, apply_judged, pick_codes, assign_picked, assign_message,
  assign_codes, coded_as,
}
use qualitative_feedback_ana.Domain.Gather.{gather_from, failures, returns, gather}
use qualitative_feedback_ana.Coding.Assign.Laws.{All-returns, IsJudged, judge_option-IsJudged}

path_has_level : {ns : CodingNodes} {path : CodePath} → Leads ns path → 1 ≤ length path
path_has_level (stop id name children rest) = omega arith
path_has_level (down id name children rest path l) = omega arith
path_has_level (next first rest path l) = path_has_level l

no_failures :
    {A : Type 0} (rs : List (Result A)) → All (λ r. (a : A) × (r ≡ ok a)) rs → failures rs ≡ []
no_failures [] h = refl
no_failures (ok a ∷ rs) h = no_failures rs h.1
no_failures (err e ∷ rs) ((a, never), h) = cc

not_yet : (now deadline : ℕ) → now < deadline → leb deadline now ≡ false
not_yet now deadline early = ground arith

check_coding_deadline-ok :
    (now deadline : ℕ) → now < deadline → check_coding_deadline now deadline ≡ ok tt
unfolding check_coding_deadline
check_coding_deadline-ok now deadline early = rw (not_yet now deadline early) refl

module _ (s : CodingService) (request : CodingAssignmentRequestModel s.floats) (calls : CodingCalls)
    (deadline : ℕ) where
  scores_nonempty :
      (path : CodePath) (scores : List s.floats.Float) (rejected : Bool)
      → IsOutcome s request.feedback_record request.tenant_id deadline request.confidence_threshold
          path scores rejected
      → 1 ≤ length path
      → 1 ≤ length scores
  scores_nonempty path scores false (same, all) h = omega arith
  scores_nonempty path scores true (passed, last, e, _, _, _) h =
      omega (arith, ap length e, length-append passed (last ∷ []))

  judged_nonempty :
      (o : ScoredCode s.floats × Bool)
      → IsJudged s request calls deadline (flatten_coding_nodes request.root_codes []) o
      → 1 ≤ length o.0.scores
  judged_nonempty (c, rejected) (path, among, outcome, _) =
      scores_nonempty path c.scores rejected outcome
        (path_has_level ((flatten_coding_nodes-iff-Leads request.root_codes path).0 among))

  explain_or_apply_returns :
      (top : List (s.floats.Float × ScoredCode s.floats)) (rejected : List (ScoredCode s.floats))
      (threshold : Option s.floats.Float)
      → All (λ c. 1 ≤ length c.scores) rejected
      → (assigned : List (AssignedCodeModel s.floats)) × (explain_or_apply s request calls deadline
            top rejected threshold
          ≡ ok assigned)
  unfolding explain_or_apply
  explain_or_apply_returns (c ∷ top) rejected threshold h = (_, refl)
  explain_or_apply_returns [] (c ∷ rejected) (some threshold) h =
      let (text, explained) = combine_rejected_returns s.floats (c ∷ rejected) threshold h in
      (uncoded s.floats text ∷ [], rw explained refl)
  explain_or_apply_returns [] [] threshold h = (_, refl)
  explain_or_apply_returns [] (c ∷ rejected) none h = (_, refl)

  apply_judged_returns :
      (judged : List (ScoredCode s.floats × Bool))
      → All (λ o. 1 ≤ length o.0.scores) judged
      → (assigned : List (AssignedCodeModel s.floats)) × (apply_judged s request calls deadline
            judged
          ≡ ok assigned)
  unfolding apply_judged
  apply_judged_returns judged h =
      let nonempty : ScoredCode s.floats → Type 0 = λ c. 1 ≤ length c.scores in
      let kept : (p : ScoredCode s.floats × Bool → Bool)
          → All nonempty (map (λ o. o.0) (keep p judged)) =
        λ p.
          All-map_list nonempty (λ o. o.0) (keep p judged)
            (All-keep (λ o. nonempty o.0) p judged h) in
      let (order, ranking) =
        ranked_returns s.floats (map (λ o. o.0) (keep (λ o. not o.1) judged))
          (kept (λ o. not o.1)) in
      let (assigned, reported) =
        explain_or_apply_returns (take request.max_codes order)
          (map (λ o. o.0) (keep (λ o. o.1) judged)) request.confidence_threshold
          (kept (λ o. o.1)) in
      (assigned, rw ranking reported)

  assign_picked_returns :
      (selected : List ℤ)
      → ((index : ℕ)
          → index < length (flatten_coding_nodes request.root_codes [])
          → (o : ScoredCode s.floats × Bool) × (judge_option s request calls deadline
                (flatten_coding_nodes request.root_codes [])
                index
              ≡ ok o))
      → (assigned : List (AssignedCodeModel s.floats)) × (assign_picked s request calls deadline
            (flatten_coding_nodes request.root_codes [])
            selected
          ≡ ok assigned)
  unfolding assign_picked gather gather_from
  assign_picked_returns selected each =
      let options = flatten_coding_nodes request.root_codes [] in
      let judge = judge_option s request calls deadline options in
      let indices = valid_indices selected (length options) in
      let results = map judge indices in
      let (inside, _, _) = valid_indices-IsSelection selected (length options) in
      let fine : failures results ≡ [] = no_failures results (
        All-map_list (λ r. (o : ScoredCode s.floats × Bool) × (r ≡ ok o)) judge indices
          (All-map (λ i lt. each i lt) indices inside)) in
      let (assigned, applied) = apply_judged_returns (returns results) (
        All-map judged_nonempty (returns results) (
          All-returns (IsJudged s request calls deadline options) results (
            All-map_list
              (λ r.
                (o : ScoredCode s.floats × Bool)
                → r ≡ ok o
                → IsJudged s request calls deadline options o)
              judge indices
              (All-intro (λ i o j. judge_option-IsJudged s request calls deadline options i o j)
                indices)))) in
      (assigned, rw fine applied)

  assign_message_returns :
      (message : Text) (selected : List ℤ)
      → pick_codes s request calls deadline message ≡ ok selected
      → ((index : ℕ)
          → index < length (flatten_coding_nodes request.root_codes [])
          → (o : ScoredCode s.floats × Bool) × (judge_option s request calls deadline
                (flatten_coding_nodes request.root_codes [])
                index
              ≡ ok o))
      → (assigned : List (AssignedCodeModel s.floats)) × (assign_message s request calls deadline
            (flatten_coding_nodes request.root_codes [])
            message
          ≡ ok assigned)
  unfolding assign_message
  assign_message_returns [] selected picked each = (_, refl)
  assign_message_returns (c ∷ message) selected picked each =
      let (assigned, made) = assign_picked_returns selected each in (assigned, rw picked made)

  -- Before the deadline, if the pick returns indices (or a reply that does not parse) within its token limit and its time, and
  -- judging each option returns, then assign_codes returns a result.
  pub assign_codes_returns :
      (selected : List ℤ)
      → calls.started < deadline
      → pick_codes s request calls deadline (
          build_coding_message request.feedback_record (flatten_coding_nodes request.root_codes []))
        ≡ ok selected
      → ((index : ℕ)
          → index < length (flatten_coding_nodes request.root_codes [])
          → (o : ScoredCode s.floats × Bool) × (judge_option s request calls deadline
                (flatten_coding_nodes request.root_codes [])
                index
              ≡ ok o))
      → (result : List (CodedFeedbackRecordModel s.floats)) × (assign_codes s request calls deadline
          ≡ ok result)
  unfolding assign_codes
  assign_codes_returns selected early picked each =
      let (assigned, made) =
        assign_message_returns
          (build_coding_message request.feedback_record
            (flatten_coding_nodes request.root_codes []))
          selected picked each in
      (
        coded_as s request calls deadline assigned,
        rw (check_coding_deadline-ok calls.started deadline early, made) refl,
      )
