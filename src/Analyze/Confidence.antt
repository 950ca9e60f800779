-- ===== src/Analyze/Confidence.antt =====
-- The confidence that `analyze_hierarchical` of src/qfa/services/analyze.py reports, by the scores of its judges.
use qualitative_feedback_ana.Prelude.{
  ℕ, zero, suc, ◌+◌, ◌-◌, ◌<◌, ◌≤◌, ◌++◌, codes, ◌≡◌, ◌⊎◌, refl, sym, ap, ◌∙◌, subst, Bool, false,
  Option, none, some, List, [], ◌∷◌, map, Text, All, arith, ◌==◌, inl, inr, length, length-map,
}
use qualitative_feedback_ana.Prelude.Decimal.{decimal}
use qualitative_feedback_ana.Domain.Chunks.{Chunk}
use qualitative_feedback_ana.Executor.Redaction.{Mapping}
use qualitative_feedback_ana.Trends.Table.{CodingTrendTable}
use qualitative_feedback_ana.Coding.Scores.{Floats, IsLeast, min_from, min_from-IsLeast}
use qualitative_feedback_ana.Analyze.Phases.{
  weighed, total_of, excluded_note, coverage_weighted_mean, uncertainty_of, confidence_of, present,
}
use qualitative_feedback_ana.Analyze.Hierarchical.{
  AnalyzeService, AnalysisRequestModel, AnalysisCalls, conclude,
}

module _ (F : Floats) where
  -- A chunk counts as often as it has records, and one without a score not at all.
  abbrev pub shares : List (Option F.Float) → List Chunk → List F.Float
  shares (some score ∷ scores) (chunk ∷ chunks) =
      F.times score (length chunk.records) ∷ shares scores chunks
  shares (none ∷ scores) (chunk ∷ chunks) = shares scores chunks
  shares _ _ = []

  -- The records of the chunks that have scores.
  abbrev pub covered : List (Option F.Float) → List Chunk → ℕ
  covered (some score ∷ scores) (chunk ∷ chunks) = length chunk.records + covered scores chunks
  covered (none ∷ scores) (chunk ∷ chunks) = covered scores chunks
  covered _ _ = 0

  -- The note on the chunks without a score: none when there are none.
  abbrev pub Notes : (chunks judged : ℕ) → Text → Type 0
  Notes chunks judged note =
      ((judged ≡ chunks) × (note ≡ []))
      ⊎ ((judged < chunks)
          × (note
              ≡ codes " ("
                ++ (decimal (chunks - judged)
                    ++ codes " chunk(s) excluded: judge failed or timed out)")))

  abbrev pub Explains : (chunks judged : ℕ) (least : F.Float) → Text → Type 0
  Explains chunks judged least explanation =
      (note : Text) × Notes chunks judged note
      × (explanation
          ≡ codes "Leaf-judged confidence is a coverage-weighted mean over "
            ++ (decimal judged
                ++ (codes " of "
                    ++ (decimal chunks
                        ++ (codes " chunk(s)"
                            ++ (note
                                ++ (codes "; the lowest single-chunk faithfulness was "
                                    ++ (F.two_decimals least ++ codes "."))))))))

  excluded_note-Notes :
      (chunks judged : ℕ) → judged ≤ chunks → Notes chunks judged (excluded_note (chunks - judged))
  unfolding excluded_note
  excluded_note-Notes chunks judged few = go (chunks - judged) refl
    where
      go : (n : ℕ) → chunks - judged ≡ n → Notes chunks judged (excluded_note (chunks - judged))
      go zero e = inl (omega arith, rw e refl)
      go (suc n) e = inr (omega arith, rw e refl)

  uncertainty_of-Explains :
      (chunks judged : ℕ) (least : F.Float)
      → judged ≤ chunks
      → Explains chunks judged least (uncertainty_of F chunks judged least)
  unfolding uncertainty_of
  uncertainty_of-Explains chunks judged least few =
      (excluded_note (chunks - judged), excluded_note-Notes chunks judged few, refl)

  length-present : (scores : List (Option F.Float)) → length (present scores) ≤ length scores
  length-present [] = omega arith
  length-present (none ∷ scores) = let rest = length-present scores in omega arith
  length-present (some score ∷ scores) = let rest = length-present scores in omega arith

  -- Without scores there is no confidence. Otherwise it is the mean over the records of the chunks that have scores, and the explanation
  -- says how many chunks these are, how many there are, how many are left out, and the least score.
  abbrev pub IsWeighed :
      List (Option F.Float) → List Chunk → (confidence : Option F.Float) → Text → Type 0
  IsWeighed scores chunks confidence explanation =
      ((present scores ≡ [])
        × (confidence ≡ none)
        × (explanation
            ≡ codes "Confidence unavailable: none of the "
              ++ (decimal (length chunks)
                  ++ codes
                      " chunk(s) could be leaf-judged (all judge calls failed or timed out).")))
      ⊎ ((least : F.Float) × IsLeast F least (present scores)
          × (0 < covered scores chunks)
          × (confidence ≡ some (F.over (F.sum (shares scores chunks)) (covered scores chunks)))
          × Explains (length chunks) (length (present scores)) least explanation)

  sizes : List Chunk → List ℕ
  sizes chunks = map (λ c. length c.records) chunks

  weighed_scores :
      (scores : List (Option F.Float)) (chunks : List Chunk)
      → length scores ≡ length chunks
      → map (λ p. p.0) (weighed scores (sizes chunks)) ≡ present scores
  unfolding weighed sizes
  weighed_scores [] chunks h = refl
  weighed_scores (s ∷ scores) [] h = absurd (omega arith)
  weighed_scores (some x ∷ scores) (c ∷ chunks) h =
      ap (◌∷◌ x) (weighed_scores scores chunks (omega arith))
  weighed_scores (none ∷ scores) (c ∷ chunks) h = weighed_scores scores chunks (omega arith)

  weighed-shares :
      (scores : List (Option F.Float)) (chunks : List Chunk)
      → map (λ p. F.times p.0 p.1) (weighed scores (sizes chunks)) ≡ shares scores chunks
  unfolding weighed sizes
  weighed-shares [] chunks = refl
  weighed-shares (some x ∷ scores) [] = refl
  weighed-shares (none ∷ scores) [] = refl
  weighed-shares (some x ∷ scores) (c ∷ chunks) =
      ap (◌∷◌ (F.times x (length c.records))) (weighed-shares scores chunks)
  weighed-shares (none ∷ scores) (c ∷ chunks) = weighed-shares scores chunks

  weighed-covered :
      (scores : List (Option F.Float)) (chunks : List Chunk)
      → total_of (map (λ p. p.1) (weighed scores (sizes chunks))) ≡ covered scores chunks
  unfolding weighed sizes
  weighed-covered [] chunks = refl
  weighed-covered (some x ∷ scores) [] = refl
  weighed-covered (none ∷ scores) [] = refl
  weighed-covered (some x ∷ scores) (c ∷ chunks) =
      ap (λ n. length c.records + n) (weighed-covered scores chunks)
  weighed-covered (none ∷ scores) (c ∷ chunks) = weighed-covered scores chunks

  covered_positive :
      (scores : List (Option F.Float)) (chunks : List Chunk)
      → length scores ≡ length chunks
      → All (λ c. 0 < length c.records) chunks
      → 0 < length (present scores)
      → 0 < covered scores chunks
  covered_positive [] chunks e h p = absurd (omega arith)
  covered_positive (s ∷ scores) [] e h p = absurd (omega arith)
  covered_positive (some x ∷ scores) (c ∷ chunks) e h p = let here = h.0 in omega arith
  covered_positive (none ∷ scores) (c ∷ chunks) e h p =
      covered_positive scores chunks (omega arith) h.1 p

  mean_of :
      (judged : List (F.Float × ℕ)) (total : ℕ)
      → total_of (map (λ p. p.1) judged) ≡ total
      → 0 < total
      → coverage_weighted_mean F judged ≡ F.over (F.sum (map (λ p. F.times p.0 p.1) judged)) total
  unfolding coverage_weighted_mean
  mean_of judged total e h = let weighs : (total == 0) ≡ false = ground arith in rw (e, weighs) refl

  confidence_of-IsWeighed :
      (scores : List (Option F.Float)) (chunks : List Chunk)
      → length scores ≡ length chunks
      → All (λ c. 0 < length c.records) chunks
      → let report = confidence_of F (length chunks) (weighed scores (sizes chunks)) in
        IsWeighed scores chunks report.0 report.1
  unfolding confidence_of
  confidence_of-IsWeighed scores chunks e positive =
      go (weighed scores (sizes chunks)) (weighed_scores scores chunks e)
        (weighed-shares scores chunks) (weighed-covered scores chunks)
        (covered_positive scores chunks e positive)
    where
      go :
          (judged : List (F.Float × ℕ))
          → map (λ p. p.0) judged ≡ present scores
          → map (λ p. F.times p.0 p.1) judged ≡ shares scores chunks
          → total_of (map (λ p. p.1) judged) ≡ covered scores chunks
          → (0 < length (present scores) → 0 < covered scores chunks)
          → let report = confidence_of F (length chunks) judged in
            IsWeighed scores chunks report.0 report.1
      go [] same products total weighs = inl (sym same, refl, refl)
      go ((x, w) ∷ judged) same products total weighs =
          let many : length (present scores) ≡ suc (length judged) =
            sym (ap length same) ∙ ap suc (length-map (λ p. p.0) judged) in
          let least = min_from F x (map (λ p. p.0) judged) in
          let few : length (present scores) ≤ length chunks =
            omega (arith, length-present scores, e) in
          let enough : 0 < covered scores chunks = weighs (omega arith) in
          inr (
            min_from F x (map (λ p. p.0) judged),
            subst (IsLeast F (min_from F x (map (λ p. p.0) judged))) same
                (min_from-IsLeast F x (map (λ p. p.0) judged)),
            enough,
            ap some (
                mean_of ((x, w) ∷ judged) (covered scores chunks) total enough
                ∙ ap (λ terms. F.over (F.sum terms) (covered scores chunks)) products),
            subst
                (λ n.
                  Explains (length chunks) (length (present scores)) least
                    (uncertainty_of F (length chunks) n least))
                many (uncertainty_of-Explains (length chunks) (length (present scores)) least few),
          )

-- With a score or none for each chunk, and records in each chunk: without scores the analysis reports no confidence, and otherwise the mean of
-- the scores that are there, each as often as its chunk has records, as the floats give it. A chunk without a score counts neither toward the mean
-- nor against it. The explanation says how many chunks there are; with scores, also how many chunks have them, how many are left out if any are, and the
-- least score.
pub conclude-IsWeighed :
    (s : AnalyzeService) (request : AnalysisRequestModel) (anonymize : Bool) (calls : AnalysisCalls)
    (trend_table : Option CodingTrendTable) (mapping : Mapping) (chunks : List Chunk)
    (synthesis : Text) (scores : List (Option s.floats.Float))
    → length scores ≡ length chunks
    → All (λ c. 0 < length c.records) chunks
    → let report = conclude s request anonymize calls trend_table mapping chunks synthesis scores in
      IsWeighed s.floats scores chunks report.confidence report.uncertainty_explanation
unfolding conclude sizes
conclude-IsWeighed s request anonymize calls trend_table mapping chunks synthesis scores =
    confidence_of-IsWeighed s.floats scores chunks
