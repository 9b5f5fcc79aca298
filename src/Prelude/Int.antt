-- ===== src/Prelude/Int.antt =====
-- Signed machine integers, as the integers that they stand for, and decidable equality of the keys
-- that the program's maps use.
use Prim.Native.Nat.{ℕ}
use Prim.Native.String.{String}
use mathlib.Core.Path.{◌≡◌, refl, ap}
use mathlib.Core.Bool.{Bool, true, false}
use native.Mathlib.Decide.{ℕ_discrete}
use text.Mathlib.Text.{◌==◌ as str_eq}
use text.Mathlib.TextEquality.{eq_iff}
use fragua_age.Prelude.Tests.{test}

-- `negsuc n` is -(n + 1).
pub data ℤ : Type 0 where
  pos : ℕ → ℤ
  negsuc : ℕ → ℤ

pub pos-injective : {a b : ℕ} → pos a ≡ pos b → a ≡ b
pos-injective e = cc

pub negsuc-injective : {a b : ℕ} → negsuc a ≡ negsuc b → a ≡ b
negsuc-injective e = cc

unfoldable pub ℤ_discrete : Discrete ℤ
unfolding ℕ_discrete
ℤ_discrete (pos a) (pos b) = elim (ℕ_discrete a b) [
  | yes p ↦ yes (ap pos p)
  | no n ↦ no (λ e. n (pos-injective e))
]
ℤ_discrete (pos a) (negsuc b) = no (λ e. cc)
ℤ_discrete (negsuc a) (pos b) = no (λ e. cc)
ℤ_discrete (negsuc a) (negsuc b) = elim (ℕ_discrete a b) [
  | yes p ↦ yes (ap negsuc p)
  | no n ↦ no (λ e. n (negsuc-injective e))
]

-- The Boolean test of the code.
abbrev pub eq_ℤ : ℤ → ℤ → Bool
eq_ℤ a b = test (ℤ_discrete a b)

unfoldable pub String_discrete : Discrete String
String_discrete s t = decide_by (str_eq s t) refl
  where
    decide_by : (b : Bool) → str_eq s t ≡ b → Dec (s ≡ t)
    decide_by true e = yes ((eq_iff s t).0 e)
    decide_by false e = no (λ p. cc ((eq_iff s t).1 p))

abbrev pub eq_String : String → String → Bool
eq_String a b = test (String_discrete a b)
