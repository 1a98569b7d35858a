-- ===== src/Common/Equality.antt =====
-- Equality tests by instances, and texts as lists of code points.
use Prim.Native.Nat.{ℕ}
use Prim.Native.Char.{code}
use Prim.Native.String.{String}
use mathlib.Core.Path.{◌≡◌, refl}
use mathlib.Core.Logic.{◌↔◌}
use mathlib.Core.Bool.{Bool, true, false, ◌&&◌}
use mathlib.Core.List.{List, [], ◌∷◌}
use native.Mathlib.Omega.{arith}
use text.Mathlib.Text.{◌==◌ as str_eq}
use text.Mathlib.TextEquality.{eq_iff}
use dingzhen_notebook.Common.Tests.{nat_beq, nat_beq_iff}

pub record HasEquality {ℓ} (A : Type ℓ) : Type ℓ where
  pub same : A → A → Bool
  pub same_iff : (a b : A) → (same a b ≡ true) ↔ (a ≡ b)

module _ {ℓ} {A : Type ℓ} ⦃test : HasEquality A⦄ where
  infix 50 ◌==◌
  abbrev pub ◌==◌ : A → A → Bool
  ◌==◌ = test.same

  -- The test holds of equal values only,
  pub ==_iff : (x y : A) → (x == y ≡ true) ↔ (x ≡ y)
  ==_iff = test.same_iff

  -- and of each value and itself.
  pub ==-refl : (x : A) → x == x ≡ true
  ==-refl x = (test.same_iff x x).1 refl

-- A Python `str` that the program walks: its code points.
abbrev pub Text : Type 0
Text = List ℕ

-- A literal of the source.
unfoldable pub txt : String → Text
txt String.[] = []
txt (String.◌∷◌ c s) = code c ∷ txt s

unfoldable pub text_beq : Text → Text → Bool
text_beq [] [] = true
text_beq (x ∷ xs) (y ∷ ys) = nat_beq x y && text_beq xs ys
text_beq _ _ = false

pub text_beq_iff : (a b : Text) → (text_beq a b ≡ true) ↔ (a ≡ b)
unfolding text_beq
text_beq_iff [] [] = ground arith
text_beq_iff [] (y ∷ ys) = ground arith
text_beq_iff (x ∷ xs) [] = ground arith
text_beq_iff (x ∷ xs) (y ∷ ys) = ground (arith, text_beq_iff xs ys)

instance abbrev pub nat_eq : HasEquality ℕ
nat_eq = record { same = nat_beq; same_iff = nat_beq_iff }

instance abbrev pub string_eq : HasEquality String
string_eq = record { same = str_eq; same_iff = eq_iff }

instance abbrev pub text_eq : HasEquality Text
text_eq = record { same = text_beq; same_iff = text_beq_iff }

module _ {ℓ κ} {A : Type ℓ} {B : Type κ} ⦃left : HasEquality A⦄ ⦃right : HasEquality B⦄ where
  abbrev pub pair_same : A × B → A × B → Bool
  pair_same (a, b) (c, d) = left.same a c && right.same b d

  pub pair_same_iff : (p q : A × B) → (pair_same p q ≡ true) ↔ (p ≡ q)
  pair_same_iff (a, b) (c, d) = ground (arith, left.same_iff a c, right.same_iff b d)

instance abbrev pub pair_eq {ℓ κ} :
    {A : Type ℓ} {B : Type κ} ⦃left : HasEquality A⦄ ⦃right : HasEquality B⦄ → HasEquality (A × B)
pair_eq = record { same = pair_same; same_iff = pair_same_iff }
