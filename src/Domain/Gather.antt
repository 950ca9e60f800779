-- ===== src/Domain/Gather.antt =====
-- `asyncio.gather` as the services under src/qfa/services call it: the results of calls that run side by side, in the order of the calls.
use qualitative_feedback_ana.Prelude.{List, [], ◌∷◌, ◌≡◌, refl}
use qualitative_feedback_ana.Domain.Errors.{Error, Result, ok, err}

-- `asyncio.gather`: all results in order, or the failure that comes first.
module _ {A : Type 0} where
  abbrev pub failures : List (Result A) → List Error
  failures [] = []
  failures (ok a ∷ rs) = failures rs
  failures (err e ∷ rs) = e ∷ failures rs

  abbrev pub returns : List (Result A) → List A
  returns [] = []
  returns (ok a ∷ rs) = a ∷ returns rs
  returns (err e ∷ rs) = returns rs

  unfoldable pub gather_from : (Error → List Error → Error) → List A → List Error → Result (List A)
  gather_from first_raised values [] = ok values
  gather_from first_raised values (e ∷ es) = err (first_raised e es)

  unfoldable pub gather : (Error → List Error → Error) → List (Result A) → Result (List A)
  unfolding gather_from
  gather first_raised rs = gather_from first_raised (returns rs) (failures rs)

-- Calls that all return.
abbrev pub Returned : {A : Type 0} → List (Result A) → Type 0
Returned [] = Unit
Returned (ok a ∷ rs) = Returned rs
Returned (err e ∷ rs) = ⊥

pub gather-Returned :
    {A : Type 0} (first_raised : Error → List Error → Error) (rs : List (Result A))
    → Returned rs
    → gather first_raised rs ≡ ok (returns rs)
unfolding gather gather_from
gather-Returned {A} first_raised rs h = go rs h
  where
    no_failures : (rs : List (Result A)) → Returned rs → failures rs ≡ []
    no_failures [] h = refl
    no_failures (ok a ∷ rs) h = no_failures rs h
    no_failures (err e ∷ rs) h = absurd h

    go :
        (rs : List (Result A))
        → Returned rs
        → gather_from first_raised (returns rs) (failures rs) ≡ ok (returns rs)
    go rs h = rw (no_failures rs h) refl
