-- ===== src/Clustering/Labels.antt =====
-- The grouping of record indices by cluster label in `cluster_records` of
-- src/qfa/services/clustering.py: `by_label` is a dictionary in insertion order.
use mathlib.Core.List.Perm
use mathlib.Core.List.{Perm, Permᴰ, Perm-prop, filter_map, perm_middle, perm_append_comm}
use mathlib.Core.Logic.{∥∥₁_elim}
use native.Mathlib.Nat.{suc-add}
use qualitative_feedback_ana.Prelude.{
  ℕ, zero, suc, ◌+◌, ◌≡◌, refl, List, [], ◌∷◌, ◌++◌, map, arith, length, get_elem?, flatten,
  Bool-cases, inl, inr, if◌then◌else◌, append_assoc, append-nil, ◌≤◌, ◌<◌, All, All-map, All-append,
  length-append, get_elem?-in_range,
}
use qualitative_feedback_ana.Prelude.Int.{ℤ, eqℤ, lebℤ}
use qualitative_feedback_ana.Prelude.Sort.{sorted, sorted-perm, All-sorted}

abbrev pub Groups : Type 0
Groups = List (ℤ × List ℕ)

-- `by_label.setdefault(label, []).append(idx)`
add_index : ℤ → ℕ → Groups → Groups
add_index label idx [] = (label, idx ∷ []) ∷ []
add_index label idx ((l, indices) ∷ groups) =
    if eqℤ l label
    then (l, indices ++ idx ∷ []) ∷ groups
    else (l, indices) ∷ add_index label idx groups

-- `for idx, raw_label in enumerate(labels)`, from `idx` on
group_from : ℕ → List ℤ → Groups → Groups
group_from idx [] groups = groups
group_from idx (label ∷ labels) groups = group_from (idx + 1) labels (add_index label idx groups)

-- `sorted(by_label.items())`; the labels are different, so the lists are never compared.
unfoldable pub by_label_sorted : List ℤ → Groups
unfolding group_from add_index
by_label_sorted labels = sorted (λ a b. lebℤ a.0 b.0) (group_from 0 labels [])

-- `records[i] for i in indices`, for indices in range.
abbrev pub pick {ℓ} : {A : Type ℓ} → List A → List ℕ → List A
pick records indices = filter_map (get_elem? records) indices

abbrev pub indices_of : Groups → List ℕ
indices_of groups = flatten (map (λ g. g.1) groups)

abbrev range_from : ℕ → ℕ → List ℕ
range_from i zero = []
range_from i (suc n) = i ∷ range_from (i + 1) n

add_index-perm :
    (label : ℤ) (idx : ℕ) (groups : Groups)
    → Perm (indices_of (add_index label idx groups)) (idx ∷ indices_of groups)
unfolding add_index
add_index-perm label idx [] = Perm.rfl
add_index-perm label idx ((l, indices) ∷ groups) = elim (Bool-cases (eqℤ l label)) [
  | inl same ↦ rw (same, append_assoc) (perm_middle indices (indices_of groups))
  | inr other ↦ rw other (
      Perm.trans (Perm.append_left indices (add_index-perm label idx groups))
        (perm_middle indices (indices_of groups)))
]

group_from-perm :
    (idx : ℕ) (labels : List ℤ) (groups : Groups)
    → Perm
        (indices_of (group_from idx labels groups))
        (range_from idx (length labels) ++ indices_of groups)
unfolding group_from
group_from-perm idx [] groups = Perm.rfl
group_from-perm idx (label ∷ labels) groups =
    Perm.trans (group_from-perm (idx + 1) labels (add_index label idx groups))
      (Perm.trans (Perm.append_left _ (add_index-perm label idx groups)) (perm_middle _ _))

pick-suc {ℓ} :
    {A : Type ℓ} (x : A) (xs : List A) (i n : ℕ)
    → pick (x ∷ xs) (range_from (suc i) n) ≡ pick xs (range_from i n)
unfolding filter_map
pick-suc x xs i zero = refl
pick-suc x xs i (suc n) = rw (suc-add, pick-suc x xs (i + 1) n)

pick_all {ℓ} : {A : Type ℓ} (xs : List A) → pick xs (range_from 0 (length xs)) ≡ xs
unfolding filter_map
pick_all [] = refl
pick_all (x ∷ xs) =
    let one : 0 + 1 ≡ suc 0 = omega arith in rw (one, pick-suc x xs 0 (length xs), pick_all xs)

flatten-perm {ℓ} :
    {A : Type ℓ} {xss yss : List (List A)} → Permᴰ xss yss → Perm (flatten xss) (flatten yss)
flatten-perm Permᴰ.nil = Perm.nil
flatten-perm (Permᴰ.cons {a = a} e p) = rw (← e) (Perm.append_left a (flatten-perm p))
flatten-perm (Permᴰ.swap {a = a} {b = b} {l = l} e f) =
    rw (← e, ← f, ← append_assoc a b (flatten l), ← append_assoc b a (flatten l))
      (Perm.append_right (flatten l) (perm_append_comm a b))
flatten-perm (Permᴰ.trans p q) = Perm.trans (flatten-perm p) (flatten-perm q)

pub flatten-Perm {ℓ} :
    {A : Type ℓ} {xss yss : List (List A)} → Perm xss yss → Perm (flatten xss) (flatten yss)
flatten-Perm p = ∥∥₁_elim p Perm-prop flatten-perm

-- Picking by the sorted groups' indices, one after the other, gives each record once.
pub pick-by_label_sorted-perm {ℓ} :
    {A : Type ℓ} (records : List A) (labels : List ℤ)
    → length labels ≡ length records
    → Perm (pick records (indices_of (by_label_sorted labels))) records
unfolding by_label_sorted
pick-by_label_sorted-perm records labels e =
    Perm.trans
      (Perm.filter_map (get_elem? records) (
        Perm.trans (flatten-Perm (Perm.map (λ g. g.1) (sorted-perm _ (group_from 0 labels []))))
          (group_from-perm 0 labels [])))
      (rw (append-nil, e, pick_all) Perm.rfl)

-- A group has an index, and its indices are in range.
abbrev pub IsInRange : ℕ → ℤ × List ℕ → Type 0
IsInRange n g = (0 < length g.1) × All (λ i. i < n) g.1

add_index-IsInRange :
    (n : ℕ) (label : ℤ) (idx : ℕ) (groups : Groups)
    → idx < n
    → All (IsInRange n) groups
    → All (IsInRange n) (add_index label idx groups)
unfolding add_index
add_index-IsInRange n label idx [] h k = ((omega arith, (h, tt)), tt)
add_index-IsInRange n label idx ((l, indices) ∷ groups) h k = elim (Bool-cases (eqℤ l label)) [
  | inl same ↦
      rw same (
        (omega (arith, length-append indices (idx ∷ [])), All-append _ indices _ k.0.1 (h, tt)),
        k.1,
      )
  | inr other ↦ rw other (k.0, add_index-IsInRange n label idx groups h k.1)
]

group_from-IsInRange :
    (n idx : ℕ) (labels : List ℤ) (groups : Groups)
    → idx + length labels ≤ n
    → All (IsInRange n) groups
    → All (IsInRange n) (group_from idx labels groups)
unfolding group_from
group_from-IsInRange n idx [] groups h k = k
group_from-IsInRange n idx (label ∷ labels) groups h k =
    group_from-IsInRange n (idx + 1) labels (add_index label idx groups) (omega arith)
      (add_index-IsInRange n label idx groups (omega arith) k)

length-pick_pos {ℓ} :
    {A : Type ℓ} (xs : List A) (indices : List ℕ)
    → 0 < length indices
    → All (λ i. i < length xs) indices
    → 0 < length (pick xs indices)
unfolding filter_map
length-pick_pos xs [] h k = absurd (omega arith)
length-pick_pos xs (i ∷ indices) h k = ground (arith, get_elem?-in_range xs i k.0)

-- Every group that is picked has a record.
pub All-pick_pos {ℓ} :
    {A : Type ℓ} (records : List A) (labels : List ℤ)
    → length labels ≡ length records
    → All (λ g. 0 < length (pick records g.1)) (by_label_sorted labels)
unfolding by_label_sorted
All-pick_pos records labels e =
    All-map (λ g h. length-pick_pos records g.1 h.0 h.1) _
      (All-sorted _ _ (group_from 0 labels [])
        (group_from-IsInRange (length records) 0 labels [] (omega arith) tt))
