-- ===== src/Prelude/Int.antt =====
-- Labels may be negative: integers over the native numbers, with their order.
use Prim.Native.Nat.{ℕ}
use mathlib.Core.Path.{◌≡◌}
use mathlib.Core.Logic.{◌⊎◌}
use mathlib.Core.Bool.{Bool, true, false}
use native.Mathlib.Omega.{arith}
use qualitative_feedback_ana.Prelude.Tests.{leb, ◌==◌}

-- `negsuc n` is -(n + 1).
pub data ℤ : Type 0 where
  pos : ℕ → ℤ
  negsuc : ℕ → ℤ

abbrev pub eqℤ : ℤ → ℤ → Bool
eqℤ (pos a) (pos b) = a == b
eqℤ (negsuc a) (negsuc b) = a == b
eqℤ _ _ = false

abbrev pub lebℤ : ℤ → ℤ → Bool
lebℤ (pos a) (pos b) = leb a b
lebℤ (pos a) (negsuc b) = false
lebℤ (negsuc a) (pos b) = true
lebℤ (negsuc a) (negsuc b) = leb b a

pub eqℤ-eq : (a b : ℤ) → eqℤ a b ≡ true → a ≡ b
eqℤ-eq (pos a) (pos b) h = ground arith
eqℤ-eq (negsuc a) (negsuc b) h = ground arith
eqℤ-eq (pos a) (negsuc b) h = cc
eqℤ-eq (negsuc a) (pos b) h = cc

pub eqℤ_refl : (a : ℤ) → eqℤ a a ≡ true
eqℤ_refl (pos a) = ground arith
eqℤ_refl (negsuc a) = ground arith

pub lebℤ_total : (a b : ℤ) → (lebℤ a b ≡ true) ⊎ (lebℤ b a ≡ true)
lebℤ_total (pos a) (pos b) = ground arith
lebℤ_total (negsuc a) (negsuc b) = ground arith
lebℤ_total (pos a) (negsuc b) = ground arith
lebℤ_total (negsuc a) (pos b) = ground arith

pub lebℤ_trans : (a b c : ℤ) → lebℤ a b ≡ true → lebℤ b c ≡ true → lebℤ a c ≡ true
lebℤ_trans (pos a) (pos b) (pos c) p q = ground arith
lebℤ_trans a b c p q = ground arith
