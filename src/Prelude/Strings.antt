-- ===== src/Prelude/Strings.antt =====
-- Python strings as lists of code points, so that `len` counts what Python counts.
use Prim.Native.Nat.{ℕ}
use Prim.Native.Char.{code}
use Prim.Native.String.{String}
use mathlib.Core.Path.{◌≡◌, refl}
use mathlib.Core.Logic.{◌↔◌, ◌⊎◌, inl, inr}
use mathlib.Core.Bool.{Bool, true, false, ◌&&◌, ◌||◌}
use mathlib.Core.List.{List, [], ◌∷◌, ◌++◌, reverse}
use native.Mathlib.Omega.{arith}
use qualitative_feedback_ana.Prelude.Tests.{◌==◌, leb, if◌then◌else◌}
use qualitative_feedback_ana.Prelude.Lists.{all}

abbrev pub Text : Type 0
Text = List ℕ

-- The code points of a literal. `String` has its own `[]` and `∷`.
abbrev pub codes : String → Text
codes String.[] = []
codes (String.◌∷◌ c s) = code c ∷ codes s

abbrev pub text_eq : Text → Text → Bool
text_eq [] [] = true
text_eq (a ∷ s) (b ∷ t) = a == b && text_eq s t
text_eq _ _ = false

pub text_eq_refl : (s : Text) → text_eq s s ≡ true
text_eq_refl [] = refl
text_eq_refl (a ∷ s) = ground (arith, text_eq_refl s)

pub text_eq-eq : (s t : Text) → text_eq s t ≡ true → s ≡ t
text_eq-eq [] [] h = refl
text_eq-eq [] (b ∷ t) h = cc
text_eq-eq (a ∷ s) [] h = cc
text_eq-eq (a ∷ s) (b ∷ t) h = ground (arith, text_eq-eq s t)

pub text_eq_iff : (s t : Text) → (text_eq s t ≡ true) ↔ (s ≡ t)
text_eq_iff s t = (text_eq-eq s t, λ e. rw (← e) (text_eq_refl s))

-- `sep.join(parts)`
abbrev pub join : Text → List Text → Text
join sep [] = []
join sep (x ∷ []) = x
join sep (x ∷ y ∷ rest) = x ++ sep ++ join sep (y ∷ rest)

-- The Unicode tables behind `str.strip` and `str.isdigit`, by code point.
pub record Unicode : Type 0 where
  pub is_space : ℕ → Bool
  pub is_digit : ℕ → Bool

abbrev pub ascii : Unicode
ascii = record {
  is_space = λ c. c == 32 || (leb 9 c && leb c 13);
  is_digit = λ c. leb b'0' c && leb c b'9';
}

abbrev pub lstrip : (ℕ → Bool) → Text → Text
lstrip p [] = []
lstrip p (c ∷ s) = if p c then lstrip p s else c ∷ s

abbrev pub strip : Unicode → Text → Text
strip u s = reverse (lstrip u.is_space (reverse (lstrip u.is_space s)))

-- `isdigit` is false on the empty string.
abbrev pub isdigit : Unicode → Text → Bool
isdigit u [] = false
isdigit u (c ∷ s) = all u.is_digit (c ∷ s)

-- The order of Python strings: by code point, a prefix first.
abbrev pub text_leb : Text → Text → Bool
text_leb [] t = true
text_leb (a ∷ s) [] = false
text_leb (a ∷ s) (b ∷ t) = if a == b then text_leb s t else leb a b

pub text_leb_total : (s t : Text) → (text_leb s t ≡ true) ⊎ (text_leb t s ≡ true)
text_leb_total [] t = inl refl
text_leb_total (a ∷ s) [] = inr refl
text_leb_total (a ∷ s) (b ∷ t) = ground (arith, text_leb_total s t)

pub text_leb_trans :
    (s t u : Text) → text_leb s t ≡ true → text_leb t u ≡ true → text_leb s u ≡ true
text_leb_trans [] t u p q = refl
text_leb_trans (a ∷ s) [] u p q = cc
text_leb_trans (a ∷ s) (b ∷ t) [] p q = cc
text_leb_trans (a ∷ s) (b ∷ t) (c ∷ u) p q = ground (arith, text_leb_trans s t u)

abbrev pub starts_with : Text → Text → Bool
starts_with [] s = true
starts_with (a ∷ front) [] = false
starts_with (a ∷ front) (b ∷ s) = a == b && starts_with front s

-- `part in s`
abbrev pub contains : Text → Text → Bool
contains part [] = starts_with part []
contains part (c ∷ s) = starts_with part (c ∷ s) || contains part s

pub starts_with-append : (front back : Text) → starts_with front (front ++ back) ≡ true
starts_with-append [] back = refl
starts_with-append (a ∷ front) back = ground (arith, starts_with-append front back)

pub starts_with-eq :
    (front s : Text) → starts_with front s ≡ true → (back : Text) × (s ≡ front ++ back)
starts_with-eq [] s h = (s, refl)
starts_with-eq (a ∷ front) [] h = cc
starts_with-eq (a ∷ front) (b ∷ s) h =
    let (back, e) = starts_with-eq front s (ground arith) in (back, ground arith)

pub text_eq_sym : (s t : Text) → text_eq s t ≡ text_eq t s
text_eq_sym [] [] = refl
text_eq_sym [] (b ∷ t) = refl
text_eq_sym (a ∷ s) [] = refl
text_eq_sym (a ∷ s) (b ∷ t) = ground (arith, text_eq_sym s t)
