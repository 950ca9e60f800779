-- ===== src/LlmClient/Retry/Accounting.antt =====
-- The attempts of the retry loop of src/qfa/adapters/llm_client.py: that they end, which one is the last, and what was discarded.
use qualitative_feedback_ana.Prelude.Int.{ℤ}
use qualitative_feedback_ana.Prelude.{
  ℕ, zero, suc, ◌+◌, ◌*◌, ◌≤◌, ◌<◌, ◌≡◌, refl, ap, sym, subst, ◌∙◌, Bool, true, false, not, ◌&&◌,
  Option, none, some, [], ◌∷◌, Text, leb, if◌then◌else◌, arith, ◌==◌, Bool-cases, inl, inr,
}
use qualitative_feedback_ana.Domain.Errors.{Error, Result, ok, err}
use qualitative_feedback_ana.LlmClient.Provider.{
  missing, text, other_object, Completion, Reply, answered, refused, raised, content_filter_signal,
}
use qualitative_feedback_ana.LlmClient.Retry.{
  Discarded, nothing_discarded, discard, attempt_once, is_retried, run_attempts,
}

-- Billed without an answer: the filter took the content away and says so.
abbrev pub is_blocked : Completion → Bool
is_blocked response = elim response.choices [
  | [] ↦ false
  | choice ∷ _ ↦ elim choice.content [
    | missing ↦ elim (content_filter_signal choice.content_filter_results) [
      | none ↦ false
      | some flagged ↦ true
    ]
    | text s ↦ false
    | other_object ↦ false
  ]
]

abbrev pub plus : Discarded → Discarded → Discarded
plus a b = record {
  prompt_tokens = a.prompt_tokens + b.prompt_tokens;
  completion_tokens = a.completion_tokens + b.completion_tokens;
  cost = a.cost + b.cost;
}

abbrev pub billed : Completion → Discarded
billed response = record {
  prompt_tokens = elim response.usage [ none ↦ 0 | some usage ↦ usage.prompt_tokens ];
  completion_tokens = elim response.usage [ none ↦ 0 | some usage ↦ usage.completion_tokens ];
  cost = elim response.usage [
    | none ↦ 0
    | some usage ↦ elim response.completion_cost [ none ↦ 0 | some cost ↦ cost ]
  ];
}

abbrev pub wasted : Reply → Discarded
wasted (answered response) = if is_blocked response then billed response else nothing_discarded
wasted (refused exc) = nothing_discarded
wasted (raised exc) = nothing_discarded

-- The sum over the attempts before number `n`.
abbrev pub wasted_before : (reply : ℕ → Reply) (n : ℕ) → Discarded
wasted_before reply zero = nothing_discarded
wasted_before reply (suc n) = plus (wasted_before reply n) (wasted (reply n))

pub attempt_once-wasted :
    (int : Text → Option ℤ) (r : Reply) (discarded : Discarded)
    → (attempt_once int r discarded).0 ≡ plus discarded (wasted r)
unfolding attempt_once discard
attempt_once-wasted int (answered response) discarded = ground arith
attempt_once-wasted int (refused exc) discarded = ground arith
attempt_once-wasted int (raised exc) discarded = ground arith

module _ (int : Text → Option ℤ) (reply : ℕ → Reply) (elapsed : ℕ → ℕ) (timeout : ℕ) where
  -- If each attempt takes time, three timeouts are fuel enough.
  pub run_attempts_ends :
      ((n : ℕ) → n ≤ elapsed n)
      → (fuel attempt : ℕ) (discarded : Discarded) → attempt ≤ 3 * timeout
      → 3 * timeout < fuel + attempt
      → (total : Discarded) × (outcome : Result Completion) × (run_attempts int reply elapsed
            timeout fuel attempt discarded
          ≡ some (total, outcome))
  unfolding run_attempts
  run_attempts_ends later zero attempt discarded begun enough = absurd (omega arith)
  run_attempts_ends later (suc fuel) attempt discarded begun enough =
      let (total, outcome) = attempt_once int (reply attempt) discarded in
      go total outcome (λ more.
        run_attempts_ends later fuel (suc attempt) total (omega (arith, more, later attempt))
          (omega arith))
    where
      go :
          (total : Discarded) (outcome : Result Completion)
          {rest : Option (Discarded × Result Completion)}
          → (elapsed attempt < 3 * timeout
              → (final : Discarded) × (last : Result Completion) × (rest ≡ some (final, last)))
          → (final : Discarded) × (last : Result Completion) × ((elim outcome [
            | ok response ↦ some (total, ok response)
            | err e ↦
                if is_retried e && not (leb (3 * timeout) (elapsed attempt))
                then rest
                else some (total, err e)
          ])
              ≡ some (final, last))
      go total (ok response) next = (total, ok response, refl)
      go total (err e) next =
          elim (Bool-cases (is_retried e && not (leb (3 * timeout) (elapsed attempt)))) [
            | inl again ↦ rw again (next (ground arith))
            | inr over ↦ (total, err e, rw over refl)
          ]

  -- A further attempt follows: the last one failed in a way that is retried, before the budget was used up.
  abbrev pub GoesOn : (n : ℕ) → Type 0
  GoesOn n =
      (e : Error) × ((attempt_once int (reply n) (wasted_before reply n)).1 ≡ err e)
      × (is_retried e ≡ true)
      × (elapsed n < 3 * timeout)

  -- The outcome of attempt `last`, after attempts that all had one that follows.
  abbrev pub IsLast : (from last : ℕ) (ending : Discarded × Result Completion) → Type 0
  IsLast from last ending =
      (from ≤ last)
      × ((n : ℕ) → from ≤ n → n < last → GoesOn n)
      × (ending ≡ attempt_once int (reply last) (wasted_before reply last))

  pub run_attempts-IsLast :
      (fuel from : ℕ) {ending : Discarded × Result Completion}
      → run_attempts int reply elapsed timeout fuel from (wasted_before reply from) ≡ some ending
      → (last : ℕ) × IsLast from last ending
  unfolding run_attempts
  run_attempts-IsLast zero from e = cc
  run_attempts-IsLast (suc fuel) from {ending} e =
      let now = attempt_once int (reply from) (wasted_before reply from) in
      go now.0 now.1 refl e (λ h. run_attempts-IsLast fuel (suc from) (
        subst (λ d. run_attempts int reply elapsed timeout fuel (suc from) d ≡ some ending)
          (attempt_once-wasted int (reply from) (wasted_before reply from)) h))
    where
      go :
          (total : Discarded) (outcome : Result Completion)
          {rest : Option (Discarded × Result Completion)}
          → (total, outcome) ≡ attempt_once int (reply from) (wasted_before reply from)
          → (elim outcome [
            | ok response ↦ some (total, ok response)
            | err e ↦
                if is_retried e && not (leb (3 * timeout) (elapsed from))
                then rest
                else some (total, err e)
          ])
            ≡ some ending
          → (rest ≡ some ending → (last : ℕ) × IsLast (suc from) last ending)
          → (last : ℕ) × IsLast from last ending
      go total (ok response) now h next =
          (from, (omega arith, λ n a b. absurd (omega arith), sym (cc h) ∙ now))
      go total (err e) {rest} now h next =
          elim (Bool-cases (is_retried e && not (leb (3 * timeout) (elapsed from)))) [
            | inl again ↦
                let (last, (after, on, ends)) = next (rw again at h) in
                let this : GoesOn from = (e, sym (ap (λ p. p.1) now), ground arith, ground arith) in
                (
                  last,
                  (
                    omega arith,
                    λ n a b. elim (Bool-cases (n == from)) [
                      | inl same ↦ subst GoesOn {x = from} {y = n} (ground arith) this
                      | inr later ↦ on n (ground arith) b
                    ],
                    ends,
                  ),
                )
            | inr over ↦
                (from, (omega arith, λ n a b. absurd (omega arith), sym (cc (rw over at h)) ∙ now))
          ]
