-- ===== src/Coding/Ranking.antt =====
-- Ranking and explaining the scored codes of src/qfa/services/coding.py.
use qualitative_feedback_ana.Prelude.{
  ℕ, ◌≤◌, All, arith, zero, suc, ◌-◌, ◌≡◌, refl, Bool, List, [], ◌∷◌, ◌++◌, map, Text, codes, join,
  length, take, ◌==◌, if◌then◌else◌, append_assoc, sym, subst, ◌∙◌,
}
use qualitative_feedback_ana.Prelude.Decimal.{decimal}
use qualitative_feedback_ana.Prelude.Sort.{sorted}
use qualitative_feedback_ana.Domain.Errors.{
  Result, ok, err, value_error, ◌>>=◌, >>=-returned, ok-injective,
}
use qualitative_feedback_ana.Coding.Framework.{format_code_path}
use qualitative_feedback_ana.Coding.Scores.{Floats, min_from, IsLeast, min_from-IsLeast}
use qualitative_feedback_ana.Coding.Judging.{ScoredCode}

-- `NO_CODING_LEAD`
abbrev pub no_coding_lead : Text
no_coding_lead = codes "NO CODING APPLIED."

abbrev pub nothing_relevant : Text
nothing_relevant = codes "\nNo code in the framework was judged relevant to this feedback."

-- `_MAX_LISTED_REJECTIONS`
abbrev pub max_listed_rejections : ℕ
max_listed_rejections = 3

abbrev last_of {ℓ} : {A : Type ℓ} → A → List A → A
last_of a [] = a
last_of a (b ∷ bs) = last_of b bs

module _ (F : Floats) where
  -- `min(self.scores)` raises on the empty list.
  unfoldable pub confidence_aggregate : List F.Float → Result F.Float
  unfolding min_from
  confidence_aggregate [] = err value_error
  confidence_aggregate (x ∷ xs) = ok (min_from F x xs)

  -- `sort` computes the key of each element first.
  unfoldable pub with_confidence : List (ScoredCode F) → Result (List (F.Float × ScoredCode F))
  unfolding confidence_aggregate
  with_confidence [] = ok []
  with_confidence (c ∷ cs) = confidence_aggregate c.scores >>= λ confidence.
      with_confidence cs >>= λ rest. ok ((confidence, c) ∷ rest)

  -- `reverse=True`
  abbrev pub more_confident : F.Float × ScoredCode F → F.Float × ScoredCode F → Bool
  more_confident a b = F.le b.0 a.0

  unfoldable pub ranked : List (ScoredCode F) → Result (List (F.Float × ScoredCode F))
  unfolding with_confidence sorted
  ranked cs = with_confidence cs >>= λ keyed. ok (sorted more_confident keyed)

  -- `_ScoredCode.explanation`
  level_lines : (i : ℕ) → List F.Float → List Text → List Text
  unfolding decimal
  level_lines i (score ∷ scores) (text ∷ texts) =
      (codes "- Level "
        ++ (decimal (suc i) ++ (codes " (" ++ (F.two_decimals score ++ (codes "): " ++ text)))))
      ∷ level_lines (suc i) scores texts
  level_lines i _ _ = []

  unfoldable pub explanation_of : ScoredCode F → Text
  unfolding level_lines
  explanation_of c = join (codes "\n") (level_lines 0 c.scores c.explanations)

  -- `explanations[-1]`
  decisive_explanation : List Text → Text
  decisive_explanation [] = []
  decisive_explanation (text ∷ texts) = last_of text texts

  rejection_block : F.Float × ScoredCode F → Text
  unfolding format_code_path decisive_explanation
  rejection_block (confidence, c) =
      format_code_path c.path
      ++ (codes " — "
          ++ (F.whole_percent confidence ++ (codes "\n  " ++ decisive_explanation c.explanations)))

  remainder_block : List (F.Float × ScoredCode F) → (remainder : ℕ) → List Text
  remainder_block [] remainder = []
  remainder_block (first ∷ listed) zero = []
  remainder_block (first ∷ listed) (suc n) =
      (decimal (suc n)
        ++ ((if n == 0 then codes " further code" else codes " further codes")
            ++ (codes " scored below " ++ (F.whole_percent (last_of first listed).0 ++ codes "."))))
      ∷ []

  rejection_blocks : (threshold : F.Float) → List (F.Float × ScoredCode F) → List Text
  unfolding rejection_block remainder_block
  rejection_blocks threshold ordered =
      let listed = take max_listed_rejections ordered in
      (no_coding_lead
        ++ (codes "\nNo code reached the "
            ++ (F.whole_percent threshold
                ++ codes " confidence threshold, so this record needs human review.")))
      ∷ (map rejection_block listed ++ remainder_block listed (length ordered - length listed))

  unfoldable pub combine_rejected_explanations :
      List (ScoredCode F) → (threshold : F.Float) → Result Text
  unfolding ranked rejection_blocks
  combine_rejected_explanations rejected threshold =
      ranked rejected >>= λ ordered. ok (join (codes "\n\n") (rejection_blocks threshold ordered))

  join-lead :
      (sep lead x : Text) (xs : List Text)
      → (text : Text) × (join sep ((lead ++ x) ∷ xs) ≡ lead ++ text)
  join-lead sep lead x [] = (x, refl)
  join-lead sep lead x (y ∷ ys) =
      (x ++ (sep ++ join sep (y ∷ ys)), rw (append_assoc, append_assoc) refl)

  -- What is said of rejected codes begins with the lead too.
  pub combine_rejected-lead :
      (rejected : List (ScoredCode F)) (threshold : F.Float) (said : Text)
      → combine_rejected_explanations rejected threshold ≡ ok said
      → (text : Text) × (said ≡ no_coding_lead ++ text)
  unfolding combine_rejected_explanations rejection_blocks
  combine_rejected-lead rejected threshold said e =
      let (ordered, order, whole) = >>=-returned (ranked rejected) _ e in
      let (text, led) = join-lead (codes "\n\n") no_coding_lead _ _ in
      (text, sym (ok-injective whole) ∙ led)

  -- Ranking sorts what it has keyed.
  pub ranked-sorted :
      (cs : List (ScoredCode F)) {order : List (F.Float × ScoredCode F)}
      → ranked cs ≡ ok order
      → (keyed : List (F.Float × ScoredCode F)) × (with_confidence cs ≡ ok keyed)
        × (sorted more_confident keyed ≡ order)
  unfolding ranked
  ranked-sorted cs e =
      let (keyed, keys, whole) = >>=-returned (with_confidence cs) _ e in
      (keyed, keys, ok-injective whole)

  pub confidence_aggregate-IsLeast :
      (scores : List F.Float) {least : F.Float}
      → confidence_aggregate scores ≡ ok least
      → IsLeast F least scores
  unfolding confidence_aggregate
  confidence_aggregate-IsLeast [] e = cc e
  confidence_aggregate-IsLeast (x ∷ xs) e =
      subst (λ l. IsLeast F l (x ∷ xs)) (ok-injective e) (min_from-IsLeast F x xs)

  confidence_returns :
      (scores : List F.Float)
      → 1 ≤ length scores
      → (least : F.Float) × (confidence_aggregate scores ≡ ok least)
  unfolding confidence_aggregate
  confidence_returns [] h = absurd (omega arith)
  confidence_returns (x ∷ xs) h = (min_from F x xs, refl)

  with_confidence_returns :
      (cs : List (ScoredCode F))
      → All (λ c. 1 ≤ length c.scores) cs
      → (keyed : List (F.Float × ScoredCode F)) × (with_confidence cs ≡ ok keyed)
  unfolding with_confidence
  with_confidence_returns [] h = ([], refl)
  with_confidence_returns (c ∷ cs) h =
      let (least, found) = confidence_returns c.scores h.0 in
      let (rest, keys) = with_confidence_returns cs h.1 in
      ((least, c) ∷ rest, rw (found, keys) refl)

  pub ranked_returns :
      (cs : List (ScoredCode F))
      → All (λ c. 1 ≤ length c.scores) cs
      → (order : List (F.Float × ScoredCode F)) × (ranked cs ≡ ok order)
  unfolding ranked
  ranked_returns cs h =
      let (keyed, keys) = with_confidence_returns cs h in
      (sorted more_confident keyed, rw keys refl)

  pub combine_rejected_returns :
      (rejected : List (ScoredCode F)) (threshold : F.Float)
      → All (λ c. 1 ≤ length c.scores) rejected
      → (text : Text) × (combine_rejected_explanations rejected threshold ≡ ok text)
  unfolding combine_rejected_explanations
  combine_rejected_returns rejected threshold h =
      let (order, ranking) = ranked_returns rejected h in
      (join (codes "\n\n") (rejection_blocks threshold order), rw ranking refl)
