-- ===== src/Prelude/Sort.antt =====
-- `sorted(xs, key=...)`: a stable sort by a Boolean order. Insertion puts an element before the
-- first one that is strictly greater when read from the right, so equal elements keep their order.
use mathlib.Core.List.Perm
use mathlib.Core.List.{Perm}
use qualitative_feedback_ana.Prelude.{
  ◌≡◌, ◌⊎◌, inl, inr, Bool, true, false, List, [], ◌∷◌, Bool-cases, All, All-map, if◌then◌else◌,
  refl, sym, ap, ◌∙◌, ◌++◌, not, All-keep, Among, keep, arith, length, suc, ℕ, zero, take, All-take,
}

module _ {ℓ} {A : Type ℓ} (le : A → A → Bool) where
  insert : A → List A → List A
  insert x [] = x ∷ []
  insert x (y ∷ ys) = if le x y then x ∷ y ∷ ys else y ∷ insert x ys

  unfoldable pub sorted : List A → List A
  unfolding insert
  sorted [] = []
  sorted (x ∷ xs) = insert x (sorted xs)

  insert-perm : (x : A) (ys : List A) → Perm (insert x ys) (x ∷ ys)
  unfolding insert
  insert-perm x [] = Perm.rfl
  insert-perm x (y ∷ ys) = elim (Bool-cases (le x y)) [
    | inl before ↦ rw before Perm.rfl
    | inr after ↦ rw after (Perm.trans (Perm.cons y (insert-perm x ys)) (Perm.swap x y ys))
  ]

  -- Sorting loses and invents nothing.
  pub sorted-perm : (xs : List A) → Perm (sorted xs) xs
  unfolding sorted
  sorted-perm [] = Perm.rfl
  sorted-perm (x ∷ xs) = Perm.trans (insert-perm x (sorted xs)) (Perm.cons x (sorted-perm xs))

  length-insert : (x : A) (ys : List A) → length (insert x ys) ≡ suc (length ys)
  unfolding insert
  length-insert x [] = refl
  length-insert x (y ∷ ys) = ground (arith, length-insert x ys)

  pub length-sorted : (xs : List A) → length (sorted xs) ≡ length xs
  unfolding sorted
  length-sorted [] = refl
  length-sorted (x ∷ xs) = omega (arith, length-insert x (sorted xs), length-sorted xs)

  abbrev pub IsSorted : List A → Type 0
  IsSorted [] = Unit
  IsSorted (x ∷ xs) = All (λ y. le x y ≡ true) xs × IsSorted xs

  pub take-IsSorted : (n : ℕ) (xs : List A) → IsSorted xs → IsSorted (take n xs)
  take-IsSorted zero xs h = tt
  take-IsSorted (suc n) [] h = tt
  take-IsSorted (suc n) (x ∷ xs) h =
      (All-take (λ y. le x y ≡ true) n xs h.0, take-IsSorted n xs h.1)

  All-insert {κ} : (P : A → Type κ) (x : A) (ys : List A) → P x → All P ys → All P (insert x ys)
  unfolding insert
  All-insert P x [] px h = (px, tt)
  All-insert P x (y ∷ ys) px h = elim (Bool-cases (le x y)) [
    | inl before ↦ rw before (px, h)
    | inr after ↦ rw after (h.0, All-insert P x ys px h.1)
  ]

  pub All-sorted {κ} : (P : A → Type κ) (xs : List A) → All P xs → All P (sorted xs)
  unfolding sorted
  All-sorted P [] h = tt
  All-sorted P (x ∷ xs) h = All-insert P x (sorted xs) h.0 (All-sorted P xs h.1)

  module _ (total : (a b : A) → (le a b ≡ true) ⊎ (le b a ≡ true))
      (trans : (a b c : A) → le a b ≡ true → le b c ≡ true → le a c ≡ true) where
    insert-IsSorted : (x : A) (ys : List A) → IsSorted ys → IsSorted (insert x ys)
    unfolding insert
    insert-IsSorted x [] h = (tt, tt)
    insert-IsSorted x (y ∷ ys) h = elim (Bool-cases (le x y)) [
      | inl before ↦ rw before ((before, All-map (λ z yz. trans x y z before yz) ys h.0), h)
      | inr after ↦ rw after (
        All-insert (λ z. le y z ≡ true) x ys (or_else (total x y) after) h.0,
        insert-IsSorted x ys h.1,
      )
    ]
      where
        or_else : {b : Bool} {P : Type 0} → (b ≡ true) ⊎ P → b ≡ false → P
        or_else (inl t) f = cc
        or_else (inr p) f = p

    -- The result is in order.
    pub sorted-IsSorted : (xs : List A) → IsSorted (sorted xs)
    unfolding sorted
    sorted-IsSorted [] = tt
    sorted-IsSorted (x ∷ xs) = insert-IsSorted x (sorted xs) (sorted-IsSorted xs)

module _ {ℓ} {A : Type ℓ} (le : A → A → Bool) (p : A → Bool)
    (alike : (x y : A) → p x ≡ true → p y ≡ true → le x y ≡ true) where
  keep-insert : (x : A) (ys : List A) → keep p (insert le x ys) ≡ keep p (x ∷ ys)
  unfolding insert
  keep-insert x [] = refl
  keep-insert x (y ∷ ys) = ground (arith, keep-insert x ys, alike x y)

  -- The sort is stable: elements that are alike keep their order.
  pub keep-sorted : (xs : List A) → keep p (sorted le xs) ≡ keep p xs
  unfolding sorted
  keep-sorted [] = refl
  keep-sorted (x ∷ xs) = ground (arith, keep-insert x (sorted le xs), keep-sorted xs)

-- Pairs of elements, the earlier one first.
abbrev pub Pairwise {ℓ} : {A : Type ℓ} (R : A → A → Type 0) → List A → Type 0
Pairwise R [] = Unit
Pairwise R (x ∷ xs) = All (R x) xs × Pairwise R xs

module _ {A B : Type 0} (le : A → A → Bool) (f : List A → B) (R : A → A → Type 0)
    (swap : (x y : A) (zs : List A) → R x y → f (x ∷ y ∷ zs) ≡ f (y ∷ x ∷ zs))
    (same : (x : A) (ys zs : List A) → f ys ≡ f zs → f (x ∷ ys) ≡ f (x ∷ zs)) where
  unordered-insert : (x : A) (ys : List A) → All (R x) ys → f (insert le x ys) ≡ f (x ∷ ys)
  unfolding insert
  unordered-insert x [] h = refl
  unordered-insert x (y ∷ ys) h = elim (Bool-cases (le x y)) [
    | inl before ↦ rw before refl
    | inr after ↦ rw after (same y _ _ (unordered-insert x ys h.1) ∙ sym (swap x y ys h.0))
  ]

  -- Sorting does not change what does not depend on the order of such pairs.
  pub unordered-sorted : (xs : List A) → Pairwise R xs → f (sorted le xs) ≡ f xs
  unfolding sorted
  unordered-sorted [] h = refl
  unordered-sorted (x ∷ xs) h =
      unordered-insert x (sorted le xs) (All-sorted le (R x) xs h.0)
      ∙ same x _ _ (unordered-sorted xs h.1)

module _ {A : Type 0} (le : A → A → Bool) where
  Among-insert : (a x : A) (ys : List A) → Among a (x ∷ ys) → Among a (insert le x ys)
  unfolding insert
  Among-insert a x [] m = m
  Among-insert a x (y ∷ ys) (inl e) = elim (Bool-cases (le x y)) [
    | inl before ↦ rw before (inl e)
    | inr after ↦ rw after (inr (Among-insert a x ys (inl e)))
  ]
  Among-insert a x (y ∷ ys) (inr (inl e)) = elim (Bool-cases (le x y)) [
    | inl before ↦ rw before (inr (inl e))
    | inr after ↦ rw after (inl e)
  ]
  Among-insert a x (y ∷ ys) (inr (inr m)) = elim (Bool-cases (le x y)) [
    | inl before ↦ rw before (inr (inr m))
    | inr after ↦ rw after (inr (Among-insert a x ys (inr m)))
  ]

  -- What is in a list is in the sorted list.
  pub Among-sorted : (a : A) (xs : List A) → Among a xs → Among a (sorted le xs)
  unfolding sorted
  Among-sorted a [] m = absurd m
  Among-sorted a (x ∷ xs) (inl e) = Among-insert a x (sorted le xs) (inl e)
  Among-sorted a (x ∷ xs) (inr m) = Among-insert a x (sorted le xs) (inr (Among-sorted a xs m))

module _ {A : Type 0} (le : A → A → Bool) (p : A → Bool) where
  -- What is kept of a list in order is in order.
  pub keep-IsSorted : (xs : List A) → IsSorted le xs → IsSorted le (keep p xs)
  keep-IsSorted [] h = tt
  keep-IsSorted (x ∷ xs) h = elim (Bool-cases (p x)) [
    | inl here ↦ rw here (All-keep (λ y. le x y ≡ true) p xs h.0, keep-IsSorted xs h.1)
    | inr gone ↦ rw gone (keep-IsSorted xs h.1)
  ]

  nothing_kept :
      (x : A) (xs : List A)
      → ((y : A) → p y ≡ true → le x y ≡ false)
      → All (λ y. le x y ≡ true) xs
      → (keep p xs ≡ []) × (keep (λ y. not (p y)) xs ≡ xs)
  nothing_kept x [] apart h = (refl, refl)
  nothing_kept x (y ∷ xs) apart h = elim (Bool-cases (p y)) [
    | inl here ↦ let after = apart y here in cc (h.0, after)
    | inr gone ↦
        let (none_left, all_left) = nothing_kept x xs apart h.1 in
        (rw gone none_left, rw gone (ap (◌∷◌ y) all_left))
  ]

  -- If nothing else stands before what passes the test, then a list in order has that first.
  pub keep_first :
      (xs : List A)
      → ((x y : A) → p x ≡ false → p y ≡ true → le x y ≡ false)
      → IsSorted le xs
      → xs ≡ keep p xs ++ keep (λ y. not (p y)) xs
  keep_first [] apart h = refl
  keep_first (x ∷ xs) apart h = elim (Bool-cases (p x)) [
    | inl here ↦ rw here (ap (◌∷◌ x) (keep_first xs apart h.1))
    | inr gone ↦
        let (none_left, all_left) = nothing_kept x xs (λ y. apart x y gone) h.0 in
        rw (gone, none_left) (ap (◌∷◌ x) (sym all_left))
  ]

  kept_pass : (xs : List A) → All (λ x. p x ≡ true) (keep p xs)
  kept_pass [] = tt
  kept_pass (x ∷ xs) = elim (Bool-cases (p x)) [
    | inl here ↦ rw here (here, kept_pass xs)
    | inr gone ↦ rw gone (kept_pass xs)
  ]

  -- What is kept is in each order that follows from the first where the test passes.
  pub keep_in_order :
      (other : A → A → Bool)
      → ((x y : A) → p x ≡ true → p y ≡ true → le x y ≡ true → other x y ≡ true)
      → (xs : List A) → IsSorted le xs
      → IsSorted other (keep p xs)
  keep_in_order other f xs h = go (keep p xs) (kept_pass xs) (keep-IsSorted xs h)
    where
      before :
          (x : A) (ys : List A)
          → p x ≡ true
          → All (λ y. p y ≡ true) ys
          → All (λ y. le x y ≡ true) ys
          → All (λ y. other x y ≡ true) ys
      before x [] px ps h = tt
      before x (y ∷ ys) px ps h = (f x y px ps.0 h.0, before x ys px ps.1 h.1)

      go : (ys : List A) → All (λ y. p y ≡ true) ys → IsSorted le ys → IsSorted other ys
      go [] ps h = tt
      go (y ∷ ys) ps h = (before y ys ps.0 ps.1 h.0, go ys ps.1 h.1)
