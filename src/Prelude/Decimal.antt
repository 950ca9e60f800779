-- ===== src/Prelude/Decimal.antt =====
-- `str(n)` of a natural number, and that it can be read back.
use Prim.Native.Nat.{ℕ, zero, suc, ◌+◌, ◌-◌, ◌*◌, ◌/◌, ◌%◌, ◌<◌}
use mathlib.Core.Path.{◌≡◌, refl, sym, ap, ◌∙◌}
use mathlib.Core.Logic.{inl, inr}
use mathlib.Core.List.{[], ◌∷◌, ◌++◌}
use native.Mathlib.Omega.{arith}
use qualitative_feedback_ana.Prelude.Tests.{ltb, if◌then◌else◌, Bool-cases}
use qualitative_feedback_ana.Prelude.Strings.{Text}
use qualitative_feedback_ana.Prelude.Lists.{All, All-append}

decimal_digits : (fuel n : ℕ) → Text
decimal_digits zero n = []
decimal_digits (suc fuel) n =
    let front = decimal_digits fuel (n / 10) in
    if ltb n 10 then (48 + n) ∷ [] else front ++ (48 + n % 10) ∷ []

unfoldable pub decimal : ℕ → Text
unfolding decimal_digits
decimal n = decimal_digits (suc n) n

-- The number that a text of digits denotes.
value_from : ℕ → Text → ℕ
value_from acc [] = acc
value_from acc (c ∷ s) = value_from (10 * acc + (c - 48)) s

value_from-append :
    (acc c : ℕ) (s : Text) → value_from acc (s ++ c ∷ []) ≡ 10 * value_from acc s + (c - 48)
unfolding value_from
value_from-append acc c [] = refl
value_from-append acc c (d ∷ s) = value_from-append (10 * acc + (d - 48)) c s

value_of_digits : (fuel n : ℕ) → n < fuel → value_from 0 (decimal_digits fuel n) ≡ n
unfolding decimal_digits
value_of_digits zero n h = absurd (omega arith)
value_of_digits (suc fuel) n h = elim (Bool-cases (ltb n 10)) [
  | inl small ↦ unfold value_from in rw small (omega arith)
  | inr large ↦ rw large (
      value_from-append 0 (48 + n % 10) (decimal_digits fuel (n / 10))
      ∙ ground (arith, value_of_digits fuel (n / 10)))
]

-- Different numbers are printed differently.
pub decimal-injective : (m n : ℕ) → decimal m ≡ decimal n → m ≡ n
unfolding decimal
decimal-injective m n e =
    sym (value_of_digits (suc m) m (omega arith))
    ∙ ap (value_from 0) e
    ∙ value_of_digits (suc n) n (omega arith)

digits_below_58 : (fuel n : ℕ) → All (λ c. c < 58) (decimal_digits fuel n)
unfolding decimal_digits
digits_below_58 zero n = tt
digits_below_58 (suc fuel) n = elim (Bool-cases (ltb n 10)) [
  | inl small ↦ rw small (ground arith, tt)
  | inr large ↦ rw large (
      All-append (λ c. c < 58) (decimal_digits fuel (n / 10)) ((48 + n % 10) ∷ [])
        (digits_below_58 fuel (n / 10)) (omega arith, tt))
]

-- No character after the digits.
pub decimal_below_58 : (n : ℕ) → All (λ c. c < 58) (decimal n)
unfolding decimal
decimal_below_58 n = digits_below_58 (suc n) n
