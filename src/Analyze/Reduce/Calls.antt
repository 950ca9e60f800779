-- ===== src/Analyze/Reduce/Calls.antt =====
-- `_reduce_partials` of src/qfa/services/analyze.py ends, and the trend table is in its last call only.
use qualitative_feedback_ana.Prelude.{
  ℕ, zero, suc, ◌≤◌, ◌<◌, ◌≡◌, refl, sym, ap, subst, false, ◌&&◌, ◌||◌, Option, none, some, List,
  [], ◌∷◌, Text, length, leb, ◌==◌, all, flatten, All, All-map, Bool-cases, inl, inr, arith, ◌⊎◌,
}
use qualitative_feedback_ana.Domain.Errors.{Error, Result, ok, err}
use qualitative_feedback_ana.Analyze.Reduce.{
  Reducer, Call, Outcome, group_partials_to_budget, fits, no_progress, reduce_once, reduce_groups,
  add_synthesis, after_group, after_groups, reduce_partials,
}
use qualitative_feedback_ana.Analyze.Reduce.Groups.{
  group_partials_to_budget-IsPartition, length-flatten_le, length-flatten_lt, group_shorter,
}

-- Some outcome, and as many syntheses as there are groups where all of them succeeded.
abbrev Returns : Outcome Text → Type 0
Returns o = (r : Result Text × List Call) × (o ≡ some r)

abbrev ReturnsMany : ℕ → Outcome (List Text) → Type 0
ReturnsMany n o =
    ((e : Error) × (calls : List Call) × (o ≡ some (err e, calls)))
    ⊎ ((xs : List Text) × (calls : List Call) × (o ≡ some (ok xs, calls)) × (length xs ≡ n))

add_synthesis_ends :
    (x : Text) (n : ℕ) (o : Outcome (List Text))
    → ReturnsMany n o
    → ReturnsMany (suc n) (add_synthesis x o)
unfolding add_synthesis
add_synthesis_ends x n o (inl (e, calls, failed)) = inl (e, calls, rw failed refl)
add_synthesis_ends x n o (inr (xs, calls, done, many)) =
    inr (x ∷ xs, calls, rw done refl, ap suc many)

after_group_ends :
    (n : ℕ) (o : Outcome Text) (rest : List Call → Outcome (List Text))
    → Returns o
    → ((calls : List Call) → ReturnsMany n (rest calls))
    → ReturnsMany (suc n) (after_group o rest)
unfolding after_group
after_group_ends n o rest ((err e, calls), ended) h = inl (e, calls, rw ended refl)
after_group_ends n o rest ((ok x, calls), ended) h =
    rw ended (add_synthesis_ends x n (rest calls) (h calls))

reduce_groups_end :
    (reduce : List Text → List Call → Outcome Text) (groups : List (List Text)) (calls : List Call)
    → All (λ g. (earlier : List Call) → Returns (reduce g earlier)) groups
    → ReturnsMany (length groups) (reduce_groups reduce groups calls)
unfolding reduce_groups
reduce_groups_end reduce [] calls h = inr ([], calls, refl, refl)
reduce_groups_end reduce (g ∷ groups) calls h =
    after_group_ends (length groups) (reduce g calls) (reduce_groups reduce groups) (h.0 calls)
      (λ later. reduce_groups_end reduce groups later h.1)

after_groups_end :
    (n : ℕ) (o : Outcome (List Text)) (rest : List Text → List Call → Outcome Text)
    → ReturnsMany n o
    → ((xs : List Text) (calls : List Call) → length xs ≡ n → Returns (rest xs calls))
    → Returns (after_groups o rest)
unfolding after_groups
after_groups_end n o rest (inl (e, calls, failed)) h = ((err e, calls), rw failed refl)
after_groups_end n o rest (inr (xs, calls, done, many)) h = rw done (h xs calls many)

fewer :
    (groups : List (List Text))
    → All (λ g. 1 ≤ length g) groups
    → (all (λ g. length g == 1) groups && length groups == length (flatten groups)) ≡ false
    → length groups < length (flatten groups)
fewer groups h e = elim (Bool-cases (all (λ g. length g == 1) groups)) [
  | inl singles ↦ ground (arith, length-flatten_le groups h, rw singles at e)
  | inr larger ↦ length-flatten_lt groups h larger
]

module _ (s : Reducer) where
  -- Without `no_progress`, the groups of two or more partials are fewer than the partials.
  progress :
      (partials : List Text)
      → 2 ≤ length partials
      → no_progress (group_partials_to_budget s partials) partials ≡ false
      → (2 ≤ length (group_partials_to_budget s partials))
        × (length (group_partials_to_budget s partials) < length partials)
        × All (λ g. length g < length partials) (group_partials_to_budget s partials)
        × All (λ g. 1 ≤ length g) (group_partials_to_budget s partials)
  progress partials two e =
      let groups = group_partials_to_budget s partials in
      let (whole, nonempty, several) = group_partials_to_budget-IsPartition s partials in
      (
        several two,
        subst (λ n. length groups < n) (ap length whole)
            (fewer groups nonempty (
              subst (λ n. (all (λ g. length g == 1) groups && length groups == n) ≡ false)
                (sym (ap length whole)) e)),
        subst (λ n. All (λ g. length g < n) groups) (ap length whole)
            (group_shorter groups nonempty (several two)),
        nonempty,
      )

  -- With as much fuel as there are partials, and at least one, the reduction ends: with a synthesis or with a failure.
  pub reduce_partials_ends :
      (fuel : ℕ) (partials : List Text) (table : Option Text) (calls : List Call)
      → length partials ≤ fuel
      → 1 ≤ fuel
      → (r : Result Text × List Call) × (reduce_partials s fuel partials table calls ≡ some r)
  unfolding reduce_partials
  reduce_partials_ends zero partials table calls enough some_fuel = absurd (omega arith)
  reduce_partials_ends (suc fuel) partials table calls enough some_fuel =
      elim (Bool-cases (leb (length partials) 1 || fits s partials table)) [
        | inl at_once ↦ rw at_once (reduce_once s partials table calls, refl)
        | inr split ↦
            elim (Bool-cases (no_progress (group_partials_to_budget s partials) partials)) [
              | inl stuck ↦ rw (split, stuck) (reduce_once s partials table calls, refl)
              | inr moves ↦
                  let (several, fewer, shorter, nonempty) =
                    progress partials (ground (arith, split)) moves in
                  rw (split, moves)
                    (after_groups_end (length (group_partials_to_budget s partials)) _ _
                      (reduce_groups_end (λ g earlier. reduce_partials s fuel g none earlier)
                        (group_partials_to_budget s partials) calls
                        (All-map
                          (λ g lt earlier.
                            reduce_partials_ends fuel g none earlier (omega arith) (omega arith))
                          (group_partials_to_budget s partials) shorter))
                      (λ xs earlier many.
                        reduce_partials_ends fuel xs table earlier (omega arith) (omega arith)))
            ]
      ]
