-- ===== src/Analyze/Reduce/Trends.antt =====
-- The trend table anchors the last call of `_reduce_partials` (src/qfa/services/analyze.py) only.
use qualitative_feedback_ana.Prelude.{
  some-injective, ℕ, zero, suc, ◌≡◌, refl, sym, ap, ◌∙◌, ◌||◌, Option, none, some, List, [], ◌∷◌,
  ◌++◌, Text, append_assoc, length, leb, All, All-append, Bool-cases, inl, inr,
}
use qualitative_feedback_ana.Domain.Errors.{ok, err}
use qualitative_feedback_ana.Analyze.Reduce.{
  Reducer, Call, Outcome, group_partials_to_budget, fits, no_progress, reduce_once, reduce_groups,
  add_synthesis, after_group, after_groups, reduce_partials,
}

add_synthesis_ok :
    (x : Text) (o : Outcome (List Text)) (xs : List Text) (after : List Call)
    → add_synthesis x o ≡ some (ok xs, after)
    → (rest : List Text) × (o ≡ some (ok rest, after))
unfolding add_synthesis
add_synthesis_ok x none xs after e = cc
add_synthesis_ok x (some (err f, calls)) xs after e = cc (ap (λ p. p.0) (some-injective e))
add_synthesis_ok x (some (ok rest, calls)) xs after e =
    (rest, ap (λ c. some (ok rest, c)) (ap (λ p. p.1) (some-injective e)))

after_group_ok :
    (o : Outcome Text) (rest : List Call → Outcome (List Text)) (xs : List Text) (after : List Call)
    → after_group o rest ≡ some (ok xs, after)
    → (x : Text) × (later : List Call) × (others : List Text) × (o ≡ some (ok x, later))
      × (rest later ≡ some (ok others, after))
unfolding after_group
after_group_ok none rest xs after e = cc
after_group_ok (some (err f, calls)) rest xs after e = cc (ap (λ p. p.0) (some-injective e))
after_group_ok (some (ok x, later)) rest xs after e =
    let (others, found) = add_synthesis_ok x (rest later) xs after e in
    (x, later, others, refl, found)

after_groups_ok :
    (o : Outcome (List Text)) (rest : List Text → List Call → Outcome Text) (x : Text)
    (after : List Call)
    → after_groups o rest ≡ some (ok x, after)
    → (xs : List Text) × (later : List Call) × (o ≡ some (ok xs, later))
      × (rest xs later ≡ some (ok x, after))
unfolding after_groups
after_groups_ok none rest x after e = cc
after_groups_ok (some (err f, calls)) rest x after e = cc (ap (λ p. p.0) (some-injective e))
after_groups_ok (some (ok xs, later)) rest x after e = (xs, later, refl, e)

-- The calls that were made are new ones without a table.
abbrev WithoutTable : List Call → List Call → Type 0
WithoutTable before after =
    (made : List Call) × (after ≡ made ++ before) × All (λ c. c.table ≡ none) made

-- The last call has the table, and the new ones before it have none.
abbrev pub TableLast : Option Text → List Call → List Call → Type 0
TableLast table before after =
    (last : Call) × (made : List Call) × (after ≡ last ∷ (made ++ before))
    × (last.table ≡ table)
    × All (λ c. c.table ≡ none) made

reduce_groups-WithoutTable :
    (reduce : List Text → List Call → Outcome Text)
    → ((g : List Text) (before : List Call) (x : Text) (after : List Call)
        → reduce g before ≡ some (ok x, after)
        → TableLast none before after)
    → (groups : List (List Text)) (before : List Call) (xs : List Text) (after : List Call)
    → reduce_groups reduce groups before ≡ some (ok xs, after)
    → WithoutTable before after
unfolding reduce_groups
reduce_groups-WithoutTable reduce each [] before xs after e =
    ([], sym (ap (λ p. p.1) (some-injective e)), tt)
reduce_groups-WithoutTable reduce each (g ∷ groups) before xs after e =
    let (x, later, others, one, rest) =
      after_group_ok (reduce g before) (reduce_groups reduce groups) xs after e in
    let (last, made, first_calls, bare, all_bare) = each g before x later one in
    let (more, further, more_bare) =
      reduce_groups-WithoutTable reduce each groups later others after rest in
    (
      more ++ (last ∷ made),
      further ∙ ap (λ t. more ++ t) first_calls ∙ sym (append_assoc more (last ∷ made) before),
      All-append (λ c. c.table ≡ none) more (last ∷ made) more_bare (bare, all_bare),
    )

module _ (s : Reducer) where
  reduce_once-TableLast :
      (items : List Text) (table : Option Text) (before : List Call) (x : Text) (after : List Call)
      → some (reduce_once s items table before) ≡ some (ok x, after)
      → TableLast table before after
  unfolding reduce_once
  reduce_once-TableLast items table before x after e = (
    record { items = items; table = table },
    [],
    sym (ap (λ p. p.1) (some-injective e)),
    refl,
    tt,
  )

  -- If the reduction succeeds, then the last call has the trend table, and no other call that it made has one.
  pub reduce_partials-TableLast :
      (fuel : ℕ) (partials : List Text) (table : Option Text) (before : List Call) (x : Text)
      (after : List Call)
      → reduce_partials s fuel partials table before ≡ some (ok x, after)
      → TableLast table before after
  unfolding reduce_partials
  reduce_partials-TableLast zero partials table before x after e = cc
  reduce_partials-TableLast (suc fuel) partials table before x after e =
      elim (Bool-cases (leb (length partials) 1 || fits s partials table)) [
        | inl at_once ↦ reduce_once-TableLast partials table before x after (rw at_once at e)
        | inr split ↦
            elim (Bool-cases (no_progress (group_partials_to_budget s partials) partials)) [
              | inl stuck ↦
                  reduce_once-TableLast partials table before x after (rw (split, stuck) at e)
              | inr moves ↦
                  let (xs, later, grouped, final) =
                    after_groups_ok _ _ x after (rw (split, moves) at e) in
                  let (made, calls, bare) =
                    reduce_groups-WithoutTable (λ g earlier. reduce_partials s fuel g none earlier)
                      (λ g b y a h. reduce_partials-TableLast fuel g none b y a h)
                      (group_partials_to_budget s partials) before xs later grouped in
                  let (last, more, further, tabled, more_bare) =
                    reduce_partials-TableLast fuel xs table later x after final in
                  (
                    last,
                    more ++ made,
                    further
                        ∙ ap (λ t. last ∷ t)
                            (ap (λ t. more ++ t) calls ∙ sym (append_assoc more made before)),
                    tabled,
                    All-append (λ c. c.table ≡ none) more made more_bare bare,
                  )
            ]
      ]
