-- ===== src/Analyze/Reduce/Groups.antt =====
-- `_group_partials_to_budget` of src/qfa/services/analyze.py cuts the partials into groups.
use qualitative_feedback_ana.Prelude.{
  ℕ, suc, ◌+◌, ◌/◌, ◌≤◌, ◌<◌, ◌≡◌, refl, sym, ap, subst, ◌∙◌, false, ◌&&◌, none, List, [], ◌∷◌,
  ◌++◌, Text, length, length-append, length-take, length-drop, leb, ◌==◌, all, take, drop,
  take-append-drop, flatten, append_assoc, append-nil, All, All-map, Bool-cases, inl, inr, arith,
}
use qualitative_feedback_ana.Analyze.Reduce.{Reducer, pack, group_partials_to_budget, fits}

some_group : (groups : List (List Text)) → 1 ≤ length (flatten groups) → 1 ≤ length groups
some_group [] h = h
some_group (g ∷ groups) h = omega arith

at_least_two : (a n : ℕ) → (a == 1 && leb 2 n) ≡ false → 2 ≤ n → 1 ≤ a → 2 ≤ a
at_least_two a n several two one = ground arith

module _ (s : Reducer) where
  flatten-pack :
      (current partials : List Text) → flatten (pack s current partials) ≡ current ++ partials
  unfolding pack
  flatten-pack [] [] = refl
  flatten-pack (c ∷ current) [] = refl
  flatten-pack [] (p ∷ partials) = flatten-pack (p ∷ []) partials
  flatten-pack (c ∷ current) (p ∷ partials) =
      elim (Bool-cases (fits s ((c ∷ current) ++ p ∷ []) none)) [
        | inl fit ↦ rw fit (
            flatten-pack ((c ∷ current) ++ p ∷ []) partials
            ∙ append_assoc (c ∷ current) (p ∷ []) partials)
        | inr full ↦ rw full (ap (λ t. (c ∷ current) ++ t) (flatten-pack (p ∷ []) partials))
      ]

  pack_nonempty : (current partials : List Text) → All (λ g. 1 ≤ length g) (pack s current partials)
  unfolding pack
  pack_nonempty [] [] = tt
  pack_nonempty (c ∷ current) [] = (omega arith, tt)
  pack_nonempty [] (p ∷ partials) = pack_nonempty (p ∷ []) partials
  pack_nonempty (c ∷ current) (p ∷ partials) =
      elim (Bool-cases (fits s ((c ∷ current) ++ p ∷ []) none)) [
        | inl fit ↦ rw fit (pack_nonempty ((c ∷ current) ++ p ∷ []) partials)
        | inr full ↦ rw full (omega arith, pack_nonempty (p ∷ []) partials)
      ]

  -- The groups hold the partials in order, none of them is empty, and there are at least two for two partials or more.
  pub group_partials_to_budget-IsPartition :
      (partials : List Text)
      → (flatten (group_partials_to_budget s partials) ≡ partials)
        × All (λ g. 1 ≤ length g) (group_partials_to_budget s partials)
        × (2 ≤ length partials → 2 ≤ length (group_partials_to_budget s partials))
  unfolding group_partials_to_budget
  group_partials_to_budget-IsPartition partials =
      elim (Bool-cases (length (pack s [] partials) == 1 && leb 2 (length partials))) [
        | inl single ↦ rw single (
          ap (λ t. take (length partials / 2) partials ++ t)
                (append-nil (drop (length partials / 2) partials))
              ∙ take-append-drop (length partials / 2) partials,
          (
            ground (arith, length-take (length partials / 2) partials, single),
            (ground (arith, length-drop (length partials / 2) partials, single), tt),
          ),
          λ h. omega arith,
        )
        | inr several ↦ rw several (
          flatten-pack [] partials,
          pack_nonempty [] partials,
          λ h. at_least_two (length (pack s [] partials)) (length partials) several h (
              some_group (pack s [] partials)
                (subst (λ n. 1 ≤ n) (sym (ap length (flatten-pack [] partials))) (omega arith))),
        )
      ]

pub length-flatten_le :
    (groups : List (List Text))
    → All (λ g. 1 ≤ length g) groups
    → length groups ≤ length (flatten groups)
length-flatten_le [] h = omega arith
length-flatten_le (g ∷ groups) h =
    omega (arith, length-append g (flatten groups), length-flatten_le groups h.1, h.0)

-- Groups that are not all singletons are fewer than what they hold.
pub length-flatten_lt :
    (groups : List (List Text))
    → All (λ g. 1 ≤ length g) groups
    → all (λ g. length g == 1) groups ≡ false
    → length groups < length (flatten groups)
length-flatten_lt [] h e = cc
length-flatten_lt (g ∷ groups) h e = elim (Bool-cases (length g == 1)) [
  | inl single ↦
      omega (
        arith,
        length-append g (flatten groups),
        length-flatten_lt groups h.1 (rw single at e),
        h.0,
      )
  | inr larger ↦
      ground (arith, length-append g (flatten groups), length-flatten_le groups h.1, h.0, larger)
]

room_for_others :
    (groups : List (List Text))
    → All (λ g. 1 ≤ length g) groups
    → All (λ g. length g + length groups ≤ suc (length (flatten groups))) groups
room_for_others [] h = tt
room_for_others (g ∷ groups) h = (
  omega (arith, length-append g (flatten groups), length-flatten_le groups h.1),
  All-map (λ f le. omega (arith, length-append g (flatten groups), le, h.0)) groups
      (room_for_others groups h.1),
)

-- A group is shorter than the whole, where there is another one.
pub group_shorter :
    (groups : List (List Text))
    → All (λ g. 1 ≤ length g) groups
    → 2 ≤ length groups
    → All (λ g. length g < length (flatten groups)) groups
group_shorter groups h two = All-map (λ g le. omega arith) groups (room_for_others groups h)
