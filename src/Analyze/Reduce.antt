-- ===== src/Analyze/Reduce.antt =====
-- `_reduce_partials` and `_group_partials_to_budget` of src/qfa/services/analyze.py, with `build_reduce_user_message` of
-- hierarchical_prompts.py. The trend table is given as the text that it renders to. The answer of the LLM may depend on
-- all earlier calls, which are a list with the newest first.
pub mod Groups
pub mod Calls
pub mod Trends
use qualitative_feedback_ana.Prelude.{
  ℕ, zero, suc, ◌/◌, Bool, true, false, ◌&&◌, ◌||◌, Option, none, some, List, [], ◌∷◌, ◌++◌, map,
  Text, codes, join, length, leb, ◌==◌, all, take, drop, if◌then◌else◌,
}
use qualitative_feedback_ana.Domain.Errors.{Result, ok, err}
use qualitative_feedback_ana.Executor.{ExecutorSettings}
use qualitative_feedback_ana.Prompts.Escape.{escape_for_tag_envelope}

trend_block : Option Text → Text
trend_block none = []
trend_block (some rendered) =
    codes "\n\n<coding_trends>\n"
    ++ (escape_for_tag_envelope rendered ++ codes "\n</coding_trends>")

unfoldable pub build_reduce_user_message :
    (analyst_prompt : Text) (partial_analyses : List Text) (trend_table : Option Text) → Text
unfolding escape_for_tag_envelope trend_block
build_reduce_user_message analyst_prompt partial_analyses trend_table =
    codes "<analyst_instruction>\n"
    ++ (escape_for_tag_envelope analyst_prompt
        ++ (codes "\n</analyst_instruction>\n\n<partial_analyses>\n"
            ++ (join (codes "\n") (
                  map
                    (λ p.
                      codes "  <partial_analysis>"
                      ++ (escape_for_tag_envelope p ++ codes "</partial_analysis>"))
                    partial_analyses)
                ++ (codes "\n</partial_analyses>" ++ trend_block trend_table))))

-- One reduce call: its partials and its trend table.
pub record Call : Type 0 where
  pub items : List Text
  pub table : Option Text

-- What a run of the reduce phase is given.
pub record Reducer : Type 0 where
  pub settings : ExecutorSettings
  pub analyst_prompt : Text
  pub system_message : Text
  -- `bounded_complete`, after the calls that were made before.
  pub answer : (earlier : List Call) → Call → Result Text

module _ (s : Reducer) where
  -- `_fits`
  unfoldable pub fits : (items : List Text) (table : Option Text) → Bool
  unfolding build_reduce_user_message
  fits items table =
      leb
        (length (s.system_message ++ build_reduce_user_message s.analyst_prompt items table)
          / s.settings.chars_per_token)
        s.settings.max_total_tokens

  -- The loop: `current` is the group that is being packed.
  pack : (current partials : List Text) → List (List Text)
  unfolding fits
  pack [] [] = []
  pack (c ∷ current) [] = (c ∷ current) ∷ []
  pack [] (p ∷ partials) = pack (p ∷ []) partials
  pack (c ∷ current) (p ∷ partials) =
      if fits ((c ∷ current) ++ p ∷ []) none
      then pack ((c ∷ current) ++ p ∷ []) partials
      else (c ∷ current) ∷ pack (p ∷ []) partials

  unfoldable pub group_partials_to_budget : (partials : List Text) → List (List Text)
  unfolding pack
  group_partials_to_budget partials =
      let groups = pack [] partials in
      let mid = length partials / 2 in
      if length groups == 1 && leb 2 (length partials)
      then take mid partials ∷ drop mid partials ∷ []
      else groups

  reduce_once :
      (items : List Text) (table : Option Text) (calls : List Call) → Result Text × List Call
  reduce_once items table calls =
      let call : Call = record { items = items; table = table } in
      (s.answer calls call, call ∷ calls)

-- What one group, or all of them, come to: `none` is fuel that was not enough, and a failure ends the loop.
abbrev pub Outcome : Type 0 → Type 0
Outcome A = Option (Result A × List Call)

add_synthesis : Text → Outcome (List Text) → Outcome (List Text)
add_synthesis synthesis none = none
add_synthesis synthesis (some (err e, calls)) = some (err e, calls)
add_synthesis synthesis (some (ok rest, calls)) = some (ok (synthesis ∷ rest), calls)

after_group : Outcome Text → (List Call → Outcome (List Text)) → Outcome (List Text)
unfolding add_synthesis
after_group none rest = none
after_group (some (err e, calls)) rest = some (err e, calls)
after_group (some (ok synthesis, calls)) rest = add_synthesis synthesis (rest calls)

-- The intermediates, one after the other.
reduce_groups :
    (reduce : List Text → List Call → Outcome Text) (groups : List (List Text)) (calls : List Call)
    → Outcome (List Text)
unfolding after_group
reduce_groups reduce [] calls = some (ok [], calls)
reduce_groups reduce (g ∷ groups) calls = after_group (reduce g calls) (reduce_groups reduce groups)

after_groups : Outcome (List Text) → (List Text → List Call → Outcome Text) → Outcome Text
after_groups none rest = none
after_groups (some (err e, calls)) rest = some (err e, calls)
after_groups (some (ok intermediates, calls)) rest = rest intermediates calls

-- Grouping did not shrink the number of partials.
abbrev pub no_progress : List (List Text) → List Text → Bool
no_progress groups partials = all (λ g. length g == 1) groups && length groups == length partials

module _ (s : Reducer) where
  unfoldable pub reduce_partials :
      (fuel : ℕ) (partials : List Text) (table : Option Text) (calls : List Call) → Outcome Text
  unfolding fits group_partials_to_budget reduce_once reduce_groups after_groups
  reduce_partials zero partials table calls = none
  reduce_partials (suc fuel) partials table calls =
      if leb (length partials) 1 || fits s partials table
      then some (reduce_once s partials table calls)
      else if no_progress (group_partials_to_budget s partials) partials
      then some (reduce_once s partials table calls)
      else after_groups
          (reduce_groups (λ g earlier. reduce_partials fuel g none earlier)
            (group_partials_to_budget s partials) calls)
          (λ intermediates earlier. reduce_partials fuel intermediates table earlier)
