-- ===== src/Coding/Judging.antt =====
-- `_ScoredCode`, `_judge_code_level` and `_judge_selected_path` of src/qfa/services/coding.py, with `build_judge_messages` of
-- coding_classifier.py. What a judge call meets outside is its `JudgeCall`: the two moments at which the deadline is
-- compared, and the judge connection. The scores that are sent to the evaluator are left out.
use qualitative_feedback_ana.Prelude.{
  ℕ, suc, ap, subst, sym, ◌∙◌, length-map, take-length, ◌≤◌, ◌≡◌, refl, Bool, true, false, ◌&&◌,
  Option, none, some, List, [], ◌∷◌, ◌++◌, map, Text, codes, join, arith, leb, if◌then◌else◌,
  Unicode, length, All, take, Bool-cases, inl, inr,
}
use qualitative_feedback_ana.Prelude.Decimal.{decimal}
use qualitative_feedback_ana.Domain.Errors.{
  Result, ok, err, analysis_error, analysis_timeout, ◌>>=◌, >>=-returned, ok-injective,
}
use qualitative_feedback_ana.Domain.Records.{FeedbackRecordModel}
use qualitative_feedback_ana.Prompts.Envelope.{build_feedback_record_envelope}
use qualitative_feedback_ana.Executor.{ExecutorSettings, check_token_limit, complete}
use qualitative_feedback_ana.Coding.Framework.{CodePath}
use qualitative_feedback_ana.Coding.Scores.{Floats, lt}
use qualitative_feedback_ana.Coding.Reply.{JudgeResponse, parse_judge_response}

pub record JudgeCall : Type 0 where
  -- When `_check_coding_deadline` reads the clock, and when the semaphore has been acquired.
  pub started : ℕ
  pub granted : ℕ
  pub judge_llm : (system_message user_message tenant_id : Text) (timeout : ℕ) → Result Text

-- `_ScoredCode`: scores and explanations are aligned with the path, one per level.
pub record ScoredCode (F : Floats) : Type 0 where
  pub path : CodePath
  pub scores : List F.Float
  pub explanations : List Text

-- What a `CodingService` is built with, and the text of its two system prompts.
pub record CodingService : Type 1 where
  pub floats : Floats
  pub unicode : Unicode
  pub same_letter : ℕ → ℕ → Bool
  pub settings : ExecutorSettings
  pub anonymize : Text → Text
  pub coding_system : Text
  pub judge_system : Text

-- `_check_coding_deadline`
unfoldable pub check_coding_deadline : (now deadline : ℕ) → Result (Unit {0})
check_coding_deadline now deadline = if leb deadline now then err analysis_timeout else ok tt

-- The user message of `build_judge_messages`: the path names a level and its label.
unfoldable pub build_judge_message :
    FeedbackRecordModel → (level : Text) → List (Text × Text) → Text
unfolding build_feedback_record_envelope
build_judge_message r level path =
    build_feedback_record_envelope r false false
    ++ (codes "\n<code_path>\n"
        ++ (join (codes "\n") (map (λ step. step.0 ++ (codes ": " ++ step.1)) path)
            ++ (codes "\n</code_path>\n\n<instruction>\nEvaluate the "
                ++ (level ++ codes " assignment.\n</instruction>"))))

abbrev level_label : ℕ → Text
level_label level_num = codes "Code level " ++ decimal level_num

module _ (s : CodingService) (r : FeedbackRecordModel) (tenant_id : Text) (deadline : ℕ) where
  -- `0.0 <= score <= 1.0`
  check_score : JudgeResponse s.floats → Result (JudgeResponse s.floats)
  check_score judged =
      if s.floats.le s.floats.float_zero judged.score && s.floats.le judged.score s.floats.float_one
      then ok judged
      else err analysis_error

  -- The call, up to what the judge replied.
  ask_judge : JudgeCall → (user_message : Text) → Result Text
  unfolding check_coding_deadline check_token_limit complete
  ask_judge call user_message = do
    _ ← check_coding_deadline call.started deadline
    _ ← check_token_limit s.settings s.judge_system user_message
    complete s.settings call.judge_llm s.judge_system (s.anonymize user_message) tenant_id
        call.granted deadline

  read_judged : (reply : Text) → Result (JudgeResponse s.floats)
  unfolding parse_judge_response check_score
  read_judged reply = do
    judged ← parse_judge_response s.unicode s.same_letter s.floats reply
    check_score judged

  unfoldable pub judge_code_level :
      JudgeCall → (level : Text) → List (Text × Text) → Result (JudgeResponse s.floats)
  unfolding build_judge_message ask_judge read_judged
  judge_code_level call level path =
      ask_judge call (build_judge_message r level path) >>= λ reply. read_judged reply

  -- `threshold is not None and score < threshold`
  abbrev pub below : Option s.floats.Float → s.floats.Float → Bool
  below none score = false
  below (some threshold) score = lt s.floats score threshold

  -- The loop over the levels: `calls` are those of this path, by level. The result is what the judge said of each
  -- level that was reached, and whether the last one is below the threshold.
  judge_levels :
      (threshold : Option s.floats.Float) (calls : ℕ → JudgeCall) (level_num : ℕ)
      (hierarchy_path : List (Text × Text)) (path : CodePath)
      → Result (List (JudgeResponse s.floats) × Bool)
  unfolding judge_code_level
  judge_levels threshold calls level_num hierarchy_path [] = ok ([], false)
  judge_levels threshold calls level_num hierarchy_path ((id, name) ∷ path) =
      let current_path = hierarchy_path ++ (level_label level_num, name) ∷ [] in
      judge_code_level (calls level_num) (level_label level_num) current_path >>= λ judged.
      if below threshold judged.score
      then ok (judged ∷ [], true)
      else (judge_levels threshold calls (suc level_num) current_path path >>= λ rest.
          ok (judged ∷ rest.0, rest.1))

  unfoldable pub judge_selected_path :
      (path : CodePath) (threshold : Option s.floats.Float) (calls : ℕ → JudgeCall)
      → Result (ScoredCode s.floats × Bool)
  unfolding judge_levels
  judge_selected_path path threshold calls =
      judge_levels threshold calls 1 [] path >>= λ (levels, rejected). ok (
        record {
          path = if rejected then take (length levels) path else path;
          scores = map (λ l. l.score) levels;
          explanations = map (λ l. l.explanation) levels;
        },
        rejected,
      )

  abbrev pub InRange : s.floats.Float → Type 0
  InRange score =
      (s.floats.le s.floats.float_zero score ≡ true) × (s.floats.le score s.floats.float_one ≡ true)

  check_score-InRange :
      (judged last : JudgeResponse s.floats) → check_score judged ≡ ok last → InRange last.score
  unfolding check_score
  check_score-InRange judged last e = ground arith

  judge_code_level-InRange :
      (call : JudgeCall) (level : Text) (path : List (Text × Text)) (last : JudgeResponse s.floats)
      → judge_code_level call level path ≡ ok last
      → InRange last.score
  unfolding judge_code_level read_judged
  judge_code_level-InRange call level path last e =
      let (reply, replied, read) =
        >>=-returned (ask_judge call (build_judge_message r level path)) read_judged e in
      let (judged, parsed, checked) =
        >>=-returned (parse_judge_response s.unicode s.same_letter s.floats reply) check_score
          read in
      check_score-InRange judged last checked

  abbrev pub Passing : Option s.floats.Float → s.floats.Float → Type 0
  Passing threshold score = InRange score × (below threshold score ≡ false)

  abbrev pub Failing : Option s.floats.Float → s.floats.Float → Type 0
  Failing threshold score = InRange score × (below threshold score ≡ true)

  -- An accepted path has a passing score for each level. A rejected one has been judged up to the first level that fails.
  abbrev pub IsOutcome : Option s.floats.Float → CodePath → List s.floats.Float → Bool → Type 0
  IsOutcome threshold path scores false =
      (length scores ≡ length path) × All (Passing threshold) scores
  IsOutcome threshold path scores true =
      (passed : List s.floats.Float) × (last : s.floats.Float) × (scores ≡ passed ++ last ∷ [])
      × All (Passing threshold) passed
      × Failing threshold last
      × (length scores ≤ length path)

  IsOutcome-cons :
      (threshold : Option s.floats.Float) (step : Text × Text) (path : CodePath)
      (score : s.floats.Float) (scores : List s.floats.Float) (rejected : Bool)
      → Passing threshold score
      → IsOutcome threshold path scores rejected
      → IsOutcome threshold (step ∷ path) (score ∷ scores) rejected
  IsOutcome-cons threshold step path score scores false p (same, all) = (ap suc same, (p, all))
  IsOutcome-cons threshold step path score scores true p (passed, last, e, all, fails, le) =
      (score ∷ passed, last, ap (◌∷◌ score) e, (p, all), fails, omega arith)

  judged_path :
      (threshold : Option s.floats.Float) (path : CodePath) (scores : List s.floats.Float)
      (rejected : Bool)
      → IsOutcome threshold path scores rejected
      → (if rejected then take (length scores) path else path) ≡ take (length scores) path
  judged_path threshold path scores true outcome = refl
  judged_path threshold path scores false (same, all) = rw same (sym (take-length path))

  judge_levels-IsOutcome :
      (threshold : Option s.floats.Float) (calls : ℕ → JudgeCall) (level_num : ℕ)
      (hierarchy_path : List (Text × Text)) (path : CodePath)
      (last : List (JudgeResponse s.floats) × Bool)
      → judge_levels threshold calls level_num hierarchy_path path ≡ ok last
      → IsOutcome threshold path (map (λ l. l.score) last.0) last.1
  unfolding judge_levels
  judge_levels-IsOutcome threshold calls level_num hierarchy_path [] last e =
      subst (λ l. IsOutcome threshold [] (map (λ j. j.score) l.0) l.1) (ok-injective e) (refl, tt)
  judge_levels-IsOutcome threshold calls level_num hierarchy_path ((id, name) ∷ path) last e =
      let current_path = hierarchy_path ++ (level_label level_num, name) ∷ [] in
      let (judged, answered, after) =
        >>=-returned (judge_code_level (calls level_num) (level_label level_num) current_path) _
          e in
      let range =
        judge_code_level-InRange (calls level_num) (level_label level_num) current_path judged
          answered in
      let Goal : List (JudgeResponse s.floats) × Bool → Type 0 =
        λ l. IsOutcome threshold ((id, name) ∷ path) (map (λ j. j.score) l.0) l.1 in
      elim (Bool-cases (below threshold judged.score)) [
        | inl fails ↦
            subst Goal (ok-injective (rw fails at after))
              ([], judged.score, refl, tt, (range, fails), omega arith)
        | inr passes ↦
            let (rest, judged_rest, whole) =
              >>=-returned (judge_levels threshold calls (suc level_num) current_path path) _
                (rw passes at after) in
            subst Goal (ok-injective whole) (
              IsOutcome-cons threshold (id, name) path judged.score (map (λ j. j.score) rest.0)
                rest.1 (range, passes)
                (judge_levels-IsOutcome threshold calls (suc level_num) current_path path rest
                  judged_rest))
      ]

  -- If judging a path returns, then either it is accepted, with its whole path and a score for each level, all of them
  -- from 0 to 1 and not below the threshold, or it is rejected, with the path up to the first level whose score is
  -- below the threshold. Scores and explanations are as many as the levels that were judged.
  pub judge_selected_path-IsOutcome :
      (path : CodePath) (threshold : Option s.floats.Float) (calls : ℕ → JudgeCall)
      {scored : ScoredCode s.floats} {rejected : Bool}
      → judge_selected_path path threshold calls ≡ ok (scored, rejected)
      → IsOutcome threshold path scored.scores rejected
        × (scored.path ≡ take (length scored.scores) path)
        × (length scored.explanations ≡ length scored.scores)
  unfolding judge_selected_path
  judge_selected_path-IsOutcome path threshold calls e =
      let (last, judged, whole) = >>=-returned (judge_levels threshold calls 1 [] path) _ e in
      let Goal : ScoredCode s.floats × Bool → Type 0 = λ o.
        IsOutcome threshold path o.0.scores o.1
        × (o.0.path ≡ take (length o.0.scores) path)
        × (length o.0.explanations ≡ length o.0.scores) in
      let outcome = judge_levels-IsOutcome threshold calls 1 [] path last judged in
      let same = length-map (λ l. l.score) last.0 in
      subst Goal (ok-injective whole) (
        outcome,
        subst
            (λ n.
              (if last.1 then take n path else path)
              ≡ take (length (map (λ l. l.score) last.0)) path)
            same (judged_path threshold path (map (λ l. l.score) last.0) last.1 outcome),
        length-map (λ l. l.explanation) last.0 ∙ sym same,
      )
