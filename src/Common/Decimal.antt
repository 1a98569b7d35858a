-- ===== src/Common/Decimal.antt =====
-- Decimal numerals: `str(n)`, `f"{n:06d}"`, and what `int()` reads back from digits.
use dingzhen_notebook.Common.Tests.{leb, ltb, if◌then◌else◌}
use dingzhen_notebook.Common.Equality.{Text}
use dingzhen_notebook.Common.Lists.{length}
use dingzhen_notebook.Common.Int.{ℤ, pos, negsuc}
use Prim.Native.Nat.{ℕ, zero, suc, ◌+◌, ◌-◌, ◌*◌, ◌/◌, ◌%◌, ◌<◌}
use mathlib.Core.Path.{◌≡◌, refl, ◌∙◌}
use mathlib.Core.Bool.{Bool, ◌&&◌}
use mathlib.Core.List.{[], ◌∷◌}
use native.Mathlib.Omega.{arith}

-- The digits of `n` before `rest`; the fuel `n + 1` is more than the number of digits.
unfoldable pub digits : ℕ → ℕ → Text → Text
digits zero n rest = rest
digits (suc fuel) n rest =
    let more = digits fuel (n / 10) ((b'0' + n % 10) ∷ rest) in
    if ltb n 10 then (b'0' + n) ∷ rest else more

unfoldable pub decimal : ℕ → Text
unfolding digits
decimal n = digits (suc n) n []

unfoldable pub decimal_ℤ : ℤ → Text
unfolding decimal
decimal_ℤ (pos n) = decimal n
decimal_ℤ (negsuc n) = b'-' ∷ decimal (suc n)

abbrev pub zeros : ℕ → Text → Text
zeros zero s = s
zeros (suc n) s = b'0' ∷ zeros n s

-- `f"{n:0{width}d}"`
unfoldable pub padded : ℕ → ℕ → Text
unfolding decimal
padded width n = let s = decimal n in zeros (width - length s) s

unfoldable pub is_digit : ℕ → Bool
is_digit c = leb b'0' c && leb c b'9'

-- The value of a text of digits, after those that make up `n`.
unfoldable pub number_from : ℕ → Text → ℕ
number_from n [] = n
number_from n (c ∷ s) = number_from (n * 10 + (c - b'0')) s

number_from-digits :
    (fuel n : ℕ) (rest : Text) → n < fuel → number_from 0 (digits fuel n rest) ≡ number_from n rest
unfolding number_from digits
number_from-digits zero n rest h = elim h [ ]
number_from-digits (suc fuel) n rest h =
    ground (arith, number_from-digits fuel (n / 10) ((b'0' + n % 10) ∷ rest))

-- What is written is read back.
pub number_from-decimal : (n : ℕ) → number_from 0 (decimal n) ≡ n
unfolding decimal number_from
number_from-decimal n = number_from-digits (suc n) n [] (omega arith)

number_from-zeros : (k : ℕ) (s : Text) → number_from 0 (zeros k s) ≡ number_from 0 s
unfolding number_from
number_from-zeros zero s = refl
number_from-zeros (suc k) s = number_from-zeros k s

pub number_from-padded : (width n : ℕ) → number_from 0 (padded width n) ≡ n
unfolding padded
number_from-padded width n =
    number_from-zeros (width - length (decimal n)) (decimal n) ∙ number_from-decimal n
