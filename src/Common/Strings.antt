-- ===== src/Common/Strings.antt =====
-- The methods of Python's `str` that the program calls, on code points. Letters with case are
-- those of ASCII, the Kelvin sign and the full-width forms that an input method or OCR yields; other scripts of
-- the program's texts (Chinese, digits, punctuation) have no case.
pub mod Laws
pub mod Pieces
use dingzhen_notebook.Common.Tests.{nat_beq, leb, if◌then◌else◌, Bool-cases}
use dingzhen_notebook.Common.Equality.{Text}
use Prim.Native.Nat.{ℕ, ◌+◌, ◌-◌}
use mathlib.Core.Path.{◌≡◌, refl, ap, ◌∙◌}
use mathlib.Core.Logic.{inl, inr}
use mathlib.Core.Bool.{Bool, true, false, ◌&&◌, ◌||◌}
use mathlib.Core.List.{[], ◌∷◌, map}
use native.Mathlib.Omega.{arith}
use dingzhen_notebook.Common.Lists.{is_empty}

-- `str.isspace` of one character: the whole of Unicode's white space.
unfoldable pub is_space : ℕ → Bool
is_space c =
    (leb 9 c && leb c 13)
    || (leb 28 c && leb c 32)
    || nat_beq c 0x85
    || nat_beq c 0xa0
    || nat_beq c 0x1680
    || (leb 0x2000 c && leb c 0x200a)
    || nat_beq c 0x2028
    || nat_beq c 0x2029
    || nat_beq c 0x202f
    || nat_beq c 0x205f
    || nat_beq c 0x3000

unfoldable pub upper_char : ℕ → ℕ
upper_char c = if (leb b'a' c && leb c b'z') || (leb 0xff41 c && leb c 0xff5a) then c - 32 else c

unfoldable pub lower_char : ℕ → ℕ
lower_char c =
    if (leb b'A' c && leb c b'Z') || (leb 0xff21 c && leb c 0xff3a)
    then c + 32
    else if nat_beq c 0x212a
    then b'k'
    else c

unfoldable pub upper : Text → Text
unfolding upper_char
upper s = map upper_char s

unfoldable pub lower : Text → Text
unfolding lower_char
lower s = map lower_char s

-- `lstrip` and `rstrip` by a set of characters.
unfoldable pub lstrip_by : (ℕ → Bool) → Text → Text
lstrip_by p [] = []
lstrip_by p (c ∷ s) = if p c then lstrip_by p s else c ∷ s

-- What is left of `c` before a stripped rest.
unfoldable pub keep_before : (ℕ → Bool) → ℕ → Text → Text
keep_before p c [] = if p c then [] else c ∷ []
keep_before p c (d ∷ s) = c ∷ d ∷ s

unfoldable pub rstrip_by : (ℕ → Bool) → Text → Text
unfolding keep_before
rstrip_by p [] = []
rstrip_by p (c ∷ s) = keep_before p c (rstrip_by p s)

unfoldable pub strip_by : (ℕ → Bool) → Text → Text
unfolding lstrip_by rstrip_by
strip_by p s = rstrip_by p (lstrip_by p s)

unfoldable pub strip : Text → Text
unfolding strip_by is_space
strip s = strip_by is_space s

-- A text that does not begin with a character of the set.
abbrev BareLeft : (ℕ → Bool) → Text → Type 0
BareLeft p [] = Unit
BareLeft p (c ∷ s) = p c ≡ false

lstrip_by-BareLeft : (p : ℕ → Bool) (s : Text) → BareLeft p (lstrip_by p s)
unfolding lstrip_by
lstrip_by-BareLeft p [] = tt
lstrip_by-BareLeft p (c ∷ s) = elim (Bool-cases (p c)) [
  | inl e ↦ rw e (lstrip_by-BareLeft p s)
  | inr e ↦ rw e e
]

lstrip_by_bare : (p : ℕ → Bool) (s : Text) → BareLeft p s → lstrip_by p s ≡ s
unfolding lstrip_by
lstrip_by_bare p [] h = refl
lstrip_by_bare p (c ∷ s) h = rw h

keep_before-BareLeft :
    (p : ℕ → Bool) (c : ℕ) (s : Text) → p c ≡ false → BareLeft p (keep_before p c s)
unfolding keep_before
keep_before-BareLeft p c [] h = rw h h
keep_before-BareLeft p c (d ∷ s) h = h

rstrip_by-BareLeft : (p : ℕ → Bool) (s : Text) → BareLeft p s → BareLeft p (rstrip_by p s)
unfolding rstrip_by
rstrip_by-BareLeft p [] h = tt
rstrip_by-BareLeft p (c ∷ s) h = keep_before-BareLeft p c (rstrip_by p s) h

rstrip_by-keep_before :
    (p : ℕ → Bool) (c : ℕ) (s : Text)
    → rstrip_by p s ≡ s
    → rstrip_by p (keep_before p c s) ≡ keep_before p c s
unfolding rstrip_by
rstrip_by-keep_before p c [] h = ground arith
rstrip_by-keep_before p c (d ∷ s) h = ap (keep_before p c) h

rstrip_by_idem : (p : ℕ → Bool) (s : Text) → rstrip_by p (rstrip_by p s) ≡ rstrip_by p s
unfolding rstrip_by
rstrip_by_idem p [] = refl
rstrip_by_idem p (c ∷ s) = rstrip_by-keep_before p c (rstrip_by p s) (rstrip_by_idem p s)

pub strip_by_idem : (p : ℕ → Bool) (s : Text) → strip_by p (strip_by p s) ≡ strip_by p s
unfolding strip_by
strip_by_idem p s =
    ap (rstrip_by p) (
      lstrip_by_bare p (strip_by p s)
        (rstrip_by-BareLeft p (lstrip_by p s) (lstrip_by-BareLeft p s)))
    ∙ rstrip_by_idem p (lstrip_by p s)

pub strip_idem : (s : Text) → strip (strip s) ≡ strip s
unfolding strip
strip_idem s = strip_by_idem is_space s

is_space-upper_char : (c : ℕ) → is_space (upper_char c) ≡ is_space c
unfolding is_space upper_char
is_space-upper_char c = ground arith

upper_char_idem : (c : ℕ) → upper_char (upper_char c) ≡ upper_char c
unfolding upper_char
upper_char_idem c = ground arith

pub upper_idem : (s : Text) → upper (upper s) ≡ upper s
unfolding upper
upper_idem [] = refl
upper_idem (c ∷ s) = cc (upper_char_idem c, upper_idem s)

module _ (p : ℕ → Bool) (f : ℕ → ℕ) (keeps : (c : ℕ) → p (f c) ≡ p c) where
  lstrip_by-map : (s : Text) → lstrip_by p (map f s) ≡ map f (lstrip_by p s)
  unfolding lstrip_by
  lstrip_by-map [] = refl
  lstrip_by-map (c ∷ s) = rw (keeps c) (ground (arith, lstrip_by-map s))

  keep_before-map : (c : ℕ) (s : Text) → keep_before p (f c) (map f s) ≡ map f (keep_before p c s)
  unfolding keep_before
  keep_before-map c [] = rw (keeps c) (ground arith)
  keep_before-map c (d ∷ s) = refl

  rstrip_by-map : (s : Text) → rstrip_by p (map f s) ≡ map f (rstrip_by p s)
  unfolding rstrip_by
  rstrip_by-map [] = refl
  rstrip_by-map (c ∷ s) = rw (rstrip_by-map s) (keep_before-map c (rstrip_by p s))

-- Stripping and folding case commute.
pub strip-upper : (s : Text) → strip (upper s) ≡ upper (strip s)
unfolding strip upper
strip-upper s =
    ap (rstrip_by is_space) (lstrip_by-map is_space upper_char is_space-upper_char s)
    ∙ rstrip_by-map is_space upper_char is_space-upper_char (lstrip_by is_space s)

-- `item.strip().upper()`
unfoldable pub tidy : Text → Text
unfolding strip upper
tidy s = upper (strip s)

pub tidy_idem : (s : Text) → tidy (tidy s) ≡ tidy s
unfolding tidy
tidy_idem s =
    ap upper (strip-upper (strip s)) ∙ upper_idem (strip (strip s)) ∙ ap upper (strip_idem s)

pub strip-tidy : (s : Text) → strip (tidy s) ≡ tidy s
unfolding tidy
strip-tidy s = strip-upper (strip s) ∙ ap upper (strip_idem s)

is_empty-upper : (s : Text) → is_empty (upper s) ≡ is_empty s
unfolding upper
is_empty-upper [] = refl
is_empty-upper (c ∷ s) = refl

-- Tidying does not empty a text that is not blank.
pub is_empty-tidy : (s : Text) → is_empty (tidy s) ≡ is_empty (strip s)
unfolding tidy
is_empty-tidy s = is_empty-upper (strip s)

unfoldable pub starts_with : Text → Text → Bool
starts_with [] s = true
starts_with (c ∷ p) [] = false
starts_with (c ∷ p) (d ∷ s) = nat_beq c d && starts_with p s

-- `needle in s`
unfoldable pub contains : Text → Text → Bool
unfolding starts_with
contains needle [] = is_empty needle
contains needle (c ∷ s) = starts_with needle (c ∷ s) || contains needle s
