-- ===== src/Coding/Assign/Laws.antt =====
-- What `assign_codes` of src/qfa/services/coding.py reports.
use qualitative_feedback_ana.Prelude.{
  ℕ, ◌≤◌, ◌≡◌, refl, sym, subst, ◌∙◌, ap, Bool, true, false, not, Option, none, some, List, [], ◌∷◌,
  ◌++◌, map, Text, arith, take, take-length, length-take, keep, length, get_elem?, All, All-take,
  All-intro, All-keep_test, All-map_list, Among, Among-get_elem?, ◌⊎◌, inl, inr,
}
use qualitative_feedback_ana.Prelude.Int.{ℤ}
use qualitative_feedback_ana.Prelude.Sort.{IsSorted, sorted-IsSorted, take-IsSorted, All-sorted}
use qualitative_feedback_ana.Domain.Errors.{Error, Result, ok, err, >>=-returned, ok-injective}
use qualitative_feedback_ana.Coding.Framework.{CodePath, flatten_coding_nodes}
use qualitative_feedback_ana.Coding.Judging.{
  CodingService, ScoredCode, judge_selected_path-IsOutcome, IsOutcome, Passing,
  check_coding_deadline,
}
use qualitative_feedback_ana.Coding.Picking.{build_coding_message, valid_indices}
use qualitative_feedback_ana.Coding.Scores.{IsLeast}
use qualitative_feedback_ana.Coding.Ranking.{
  no_coding_lead, nothing_relevant, confidence_aggregate, confidence_aggregate-IsLeast,
  with_confidence, more_confident, ranked, combine_rejected_explanations, combine_rejected-lead,
  ranked-sorted,
}
use qualitative_feedback_ana.Coding.Assign.{
  AssignedCodeModel, id_at, name_at, CodedFeedbackRecordModel, CodingAssignmentRequestModel,
  CodingCalls, uncoded, assigned_code, judge_found, judge_option, explain_or_apply, apply_judged,
  pick_codes, assign_picked, assign_message, assign_codes, coded_as,
}
use qualitative_feedback_ana.Domain.Gather.{gather_from, failures, returns, gather}

pub All-returns :
    {A : Type 0} (P : A → Type 0) (rs : List (Result A))
    → All (λ r. (a : A) → r ≡ ok a → P a) rs
    → All P (returns rs)
All-returns P [] h = tt
All-returns P (ok a ∷ rs) h = (h.0 a refl, All-returns P rs h.1)
All-returns P (err e ∷ rs) h = All-returns P rs h.1

gathered_from :
    {A : Type 0} (first_raised : Error → List Error → Error) (values all : List A) (es : List Error)
    → gather_from first_raised values es ≡ ok all
    → values ≡ all
unfolding gather_from
gathered_from first_raised values all [] e = ok-injective e
gathered_from first_raised values all (x ∷ es) e = cc

gathered :
    {A : Type 0} (first_raised : Error → List Error → Error) (rs : List (Result A))
    {values : List A}
    → gather first_raised rs ≡ ok values
    → returns rs ≡ values
unfolding gather
gathered first_raised rs e = gathered_from first_raised (returns rs) _ (failures rs) e

module _ (s : CodingService) (request : CodingAssignmentRequestModel s.floats) (calls : CodingCalls)
    (deadline : ℕ) where
  -- An option with a score from 0 to 1 for each of its levels, none of them below the threshold.
  abbrev pub IsAccepted : List CodePath → ScoredCode s.floats → Type 0
  IsAccepted options c =
      Among c.path options
      × (length c.scores ≡ length c.path)
      × All
          (Passing s request.feedback_record request.tenant_id deadline
            request.confidence_threshold)
          c.scores

  abbrev pub IsJudged : List CodePath → ScoredCode s.floats × Bool → Type 0
  IsJudged options o =
      (path : CodePath) × Among path options
      × IsOutcome s request.feedback_record request.tenant_id deadline request.confidence_threshold
          path o.0.scores o.1
      × (o.0.path ≡ take (length o.0.scores) path)

  judge_found-IsJudged :
      (options : List CodePath) (index : ℕ) (found : Option CodePath) (scored : ScoredCode s.floats)
      (rejected : Bool)
      → get_elem? options index ≡ found
      → judge_found s request calls deadline index found ≡ ok (scored, rejected)
      → IsJudged options (scored, rejected)
  unfolding judge_found
  judge_found-IsJudged options index none scored rejected at e = cc
  judge_found-IsJudged options index (some path) scored rejected at e =
      let (outcome, whole, _) =
        judge_selected_path-IsOutcome s request.feedback_record request.tenant_id deadline path
          request.confidence_threshold (calls.judge index) e in
      (path, Among-get_elem? options index at, outcome, whole)

  pub judge_option-IsJudged :
      (options : List CodePath) (index : ℕ) (o : ScoredCode s.floats × Bool)
      → judge_option s request calls deadline options index ≡ ok o
      → IsJudged options o
  unfolding judge_option
  judge_option-IsJudged options index (scored, rejected) e =
      judge_found-IsJudged options index (get_elem? options index) scored rejected refl e

  accepted :
      (options : List CodePath) (o : ScoredCode s.floats × Bool)
      → IsJudged options o
      → not o.1 ≡ true
      → IsAccepted options o.0
  accepted options (c, true) j e = cc
  accepted options (c, false) (path, among, (same, passing), whole) e =
      let here : c.path ≡ path = whole ∙ ap (λ n. take n path) same ∙ take-length path in
      (subst (λ p. Among p options) (sym here) among, same ∙ ap length (sym here), passing)

  -- The code shows an option, level by level, and the scores of its levels.
  abbrev pub Shows : AssignedCodeModel s.floats → s.floats.Float × ScoredCode s.floats → Type 0
  Shows code (confidence, c) =
      (code.confidence ≡ some confidence)
      × (code.coding_level_1_id ≡ id_at c.path 0)
      × (code.coding_level_1_name ≡ name_at c.path 0)
      × (code.coding_level_2_id ≡ id_at c.path 1)
      × (code.coding_level_2_name ≡ name_at c.path 1)
      × (code.coding_level_3_id ≡ id_at c.path 2)
      × (code.coding_level_3_name ≡ name_at c.path 2)
      × (code.confidence_level_1 ≡ get_elem? c.scores 0)
      × (code.confidence_level_2 ≡ get_elem? c.scores 1)
      × (code.confidence_level_3 ≡ get_elem? c.scores 2)

  assigned_code-Shows :
      (k : s.floats.Float × ScoredCode s.floats) → Shows (assigned_code s.floats k) k
  unfolding assigned_code
  assigned_code-Shows (confidence, c) = (refl, refl, refl, refl, refl, refl, refl, refl, refl, refl)

  -- An accepted option with its least score, which is shown with it.
  abbrev pub IsApplied : List CodePath → s.floats.Float × ScoredCode s.floats → Type 0
  IsApplied options k =
      IsAccepted options k.1 × IsLeast s.floats k.0 k.1.scores × Shows (assigned_code s.floats k) k

  keyed-IsApplied :
      (options : List CodePath) (cs : List (ScoredCode s.floats))
      (keyed : List (s.floats.Float × ScoredCode s.floats))
      → with_confidence s.floats cs ≡ ok keyed
      → All (IsAccepted options) cs
      → All (IsApplied options) keyed
  unfolding with_confidence
  keyed-IsApplied options [] keyed e h = subst (All (IsApplied options)) (ok-injective e) tt
  keyed-IsApplied options (c ∷ cs) keyed e h =
      let (confidence, least, after) = >>=-returned (confidence_aggregate s.floats c.scores) _ e in
      let (rest, keys, whole) = >>=-returned (with_confidence s.floats cs) _ after in
      subst (All (IsApplied options)) (ok-injective whole) (
        (
          h.0,
          confidence_aggregate-IsLeast s.floats c.scores least,
          assigned_code-Shows (confidence, c),
        ),
        keyed-IsApplied options cs rest keys h.1,
      )

  -- Either one entry that has an explanation only, which begins with the lead, or the codes that were applied:
  -- at least one and at most `max_codes`, the most confident first, each of them accepted.
  abbrev pub IsReport : List CodePath → List (AssignedCodeModel s.floats) → Type 0
  IsReport options assigned =
      ((text : Text) × (assigned ≡ uncoded s.floats (no_coding_lead ++ text) ∷ []))
      ⊎ ((top : List (s.floats.Float × ScoredCode s.floats)) × (assigned
            ≡ map (assigned_code s.floats) top)
          × (1 ≤ length top)
          × (length top ≤ request.max_codes)
          × IsSorted (λ a b. s.floats.le b.0 a.0) top
          × All (IsApplied options) top)

  explain_or_apply-IsReport :
      (options : List CodePath) (top : List (s.floats.Float × ScoredCode s.floats))
      (rejected : List (ScoredCode s.floats)) (threshold : Option s.floats.Float)
      (assigned : List (AssignedCodeModel s.floats))
      → explain_or_apply s request calls deadline top rejected threshold ≡ ok assigned
      → length top ≤ request.max_codes
      → IsSorted (more_confident s.floats) top
      → All (IsApplied options) top
      → IsReport options assigned
  unfolding explain_or_apply
  explain_or_apply-IsReport options (c ∷ top) rejected threshold assigned e few order applied =
      inr (c ∷ top, sym (ok-injective e), omega arith, few, order, applied)
  explain_or_apply-IsReport options [] (c ∷ rejected) (some threshold) assigned e few order
        applied =
      let (said, explained, whole) =
        >>=-returned (combine_rejected_explanations s.floats (c ∷ rejected) threshold) _ e in
      let (text, led) = combine_rejected-lead s.floats (c ∷ rejected) threshold said explained in
      inl (text, sym (ok-injective whole) ∙ ap (λ t. uncoded s.floats t ∷ []) led)
  explain_or_apply-IsReport options [] [] threshold assigned e few order applied =
      inl (nothing_relevant, sym (ok-injective e))
  explain_or_apply-IsReport options [] (c ∷ rejected) none assigned e few order applied =
      inl (nothing_relevant, sym (ok-injective e))

  apply_judged-IsReport :
      (options : List CodePath) (judged : List (ScoredCode s.floats × Bool))
      (assigned : List (AssignedCodeModel s.floats))
      → apply_judged s request calls deadline judged ≡ ok assigned
      → All (IsJudged options) judged
      → IsReport options assigned
  unfolding apply_judged
  apply_judged-IsReport options judged assigned e h =
      let candidates = map (λ o. o.0) (keep (λ o. not o.1) judged) in
      let (order, ranking, reported) = >>=-returned (ranked s.floats candidates) _ e in
      let (keyed, keys, same) = ranked-sorted s.floats candidates ranking in
      let all_accepted : All (IsAccepted options) candidates =
        All-map_list (IsAccepted options) (λ o. o.0) (keep (λ o. not o.1) judged)
          (All-keep_test (IsJudged options) (λ o. IsAccepted options o.0) (λ o. not o.1)
            (λ o j t. accepted options o j t) judged h) in
      let le = more_confident s.floats in
      explain_or_apply-IsReport options (take request.max_codes order) _
        request.confidence_threshold assigned reported
        (omega (arith, length-take request.max_codes order))
        (take-IsSorted le request.max_codes order (
          subst (IsSorted le) same (
            sorted-IsSorted le (λ a b. s.floats.le_total b.0 a.0)
              (λ a b c p q. s.floats.le_trans c.0 b.0 a.0 q p) keyed)))
        (All-take (IsApplied options) request.max_codes order (
          subst (All (IsApplied options)) same (
            All-sorted le (IsApplied options) keyed
              (keyed-IsApplied options candidates keyed keys all_accepted))))

  assign_picked-IsReport :
      (options : List CodePath) (selected : List ℤ) (assigned : List (AssignedCodeModel s.floats))
      → assign_picked s request calls deadline options selected ≡ ok assigned
      → IsReport options assigned
  unfolding assign_picked
  assign_picked-IsReport options selected assigned e =
      let results =
        map (judge_option s request calls deadline options)
          (valid_indices selected (length options)) in
      let (judged, gathering, applied) = >>=-returned (gather calls.first_raised results) _ e in
      apply_judged-IsReport options judged assigned applied (
        subst (All (IsJudged options)) (gathered calls.first_raised results gathering) (
          All-returns (IsJudged options) results (
            All-map_list (λ r. (o : ScoredCode s.floats × Bool) → r ≡ ok o → IsJudged options o)
              (judge_option s request calls deadline options)
              (valid_indices selected (length options))
              (All-intro (λ i o j. judge_option-IsJudged options i o j)
                (valid_indices selected (length options))))))

  assign_message-IsReport :
      (options : List CodePath) (message : Text) (assigned : List (AssignedCodeModel s.floats))
      → assign_message s request calls deadline options message ≡ ok assigned
      → IsReport options assigned
  unfolding assign_message
  assign_message-IsReport options [] assigned e = inl (nothing_relevant, sym (ok-injective e))
  assign_message-IsReport options (c ∷ message) assigned e =
      let (selected, picked, after) =
        >>=-returned (pick_codes s request calls deadline (c ∷ message)) _ e in
      assign_picked-IsReport options selected assigned after

  -- A result has one entry, for the record of the request, and its codes are never empty: either a single one with an
  -- explanation only, which begins with `NO CODING APPLIED.`, or at most `max_codes` paths of the framework in
  -- descending order of confidence, each shown with the ids, the names and the scores of its first three levels; it has a score from
  -- 0 to 1 for each of its levels, none below the threshold, and the least of them as its confidence.
  pub assign_codes-IsReport :
      {result : List (CodedFeedbackRecordModel s.floats)}
      → assign_codes s request calls deadline ≡ ok result
      → (assigned : List (AssignedCodeModel s.floats)) × (result
          ≡ coded_as s request calls deadline assigned)
        × IsReport (flatten_coding_nodes request.root_codes []) assigned
  unfolding assign_codes
  assign_codes-IsReport e =
      let (_, _, in_time) = >>=-returned (check_coding_deadline calls.started deadline) _ e in
      let options = flatten_coding_nodes request.root_codes [] in
      let (assigned, made, whole) =
        >>=-returned
          (assign_message s request calls deadline options
            (build_coding_message request.feedback_record options))
          _ in_time in
      (assigned, sym (ok-injective whole), assign_message-IsReport options _ assigned made)
