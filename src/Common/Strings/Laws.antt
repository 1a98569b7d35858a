-- ===== src/Common/Strings/Laws.antt =====
-- What stripping keeps: every character of the rest, and the absence of a substring.
use dingzhen_notebook.Common.Lists.{All}
use dingzhen_notebook.Common.Tests.{Bool-cases}
use dingzhen_notebook.Common.Equality.{Text}
use dingzhen_notebook.Common.Strings.{
  lstrip_by, keep_before, rstrip_by, strip_by, starts_with, contains,
}
use Prim.Native.Nat.{ℕ}
use mathlib.Core.Path.{◌≡◌, refl, ap, ◌∙◌, sym}
use mathlib.Core.Logic.{inl, inr}
use mathlib.Core.Bool.{Bool, true, false}
use mathlib.Core.List.{[], ◌∷◌, ◌++◌}
use native.Mathlib.Omega.{arith}

module _ (p : ℕ → Bool) (P : ℕ → Type 0) where
  All-lstrip_by : (s : Text) → All P s → All P (lstrip_by p s)
  unfolding lstrip_by
  All-lstrip_by [] h = tt
  All-lstrip_by (c ∷ s) h = ground (arith, All-lstrip_by s h.1)

  All-keep_before : (c : ℕ) (s : Text) → P c → All P s → All P (keep_before p c s)
  unfolding keep_before
  All-keep_before c [] h hs = ground arith
  All-keep_before c (d ∷ s) h hs = (h, hs)

  All-rstrip_by : (s : Text) → All P s → All P (rstrip_by p s)
  unfolding rstrip_by
  All-rstrip_by [] h = tt
  All-rstrip_by (c ∷ s) h = All-keep_before c (rstrip_by p s) h.0 (All-rstrip_by s h.1)

  pub All-strip_by : (s : Text) → All P s → All P (strip_by p s)
  unfolding strip_by
  All-strip_by s h = All-rstrip_by (lstrip_by p s) (All-lstrip_by s h)

module _ (p : ℕ → Bool) where
  lstrip_by_none : (s : Text) → All (λ c. p c ≡ false) s → lstrip_by p s ≡ s
  unfolding lstrip_by
  lstrip_by_none [] h = refl
  lstrip_by_none (c ∷ s) h = rw (h.0)

  keep_before_none : (c : ℕ) (s : Text) → p c ≡ false → keep_before p c s ≡ c ∷ s
  unfolding keep_before
  keep_before_none c [] h = rw h
  keep_before_none c (d ∷ s) h = refl

  rstrip_by_none : (s : Text) → All (λ c. p c ≡ false) s → rstrip_by p s ≡ s
  unfolding rstrip_by
  rstrip_by_none [] h = refl
  rstrip_by_none (c ∷ s) h = rw (rstrip_by_none s h.1) (keep_before_none c s h.0)

  -- Nothing to strip, nothing stripped.
  pub strip_by_none : (s : Text) → All (λ c. p c ≡ false) s → strip_by p s ≡ s
  unfolding strip_by
  strip_by_none s h = rw (lstrip_by_none s h) (rstrip_by_none s h)

  -- What `rstrip` leaves is a prefix.
  rstrip_by_prefix : (s : Text) → (t : Text) × (s ≡ rstrip_by p s ++ t)
  unfolding rstrip_by
  rstrip_by_prefix [] = ([], refl)
  rstrip_by_prefix (c ∷ s) = let (t, e) = rstrip_by_prefix s in before (rstrip_by p s) t e
    where
      before : (r t : Text) → s ≡ r ++ t → (u : Text) × (c ∷ s ≡ keep_before p c r ++ u)
      before (d ∷ r) t e = (t, unfold keep_before in ap (◌∷◌ c) e)
      before [] t e = elim (Bool-cases (p c)) [
        | inl gone ↦ (c ∷ s, unfold keep_before in rw gone)
        | inr kept ↦ (t, unfold keep_before in rw kept (ap (◌∷◌ c) e))
      ]

starts_with-append : (n a t : Text) → starts_with n a ≡ true → starts_with n (a ++ t) ≡ true
unfolding starts_with
starts_with-append [] a t h = refl
starts_with-append (c ∷ n) [] t h = cc
starts_with-append (c ∷ n) (d ∷ a) t h = ground (arith, starts_with-append n a t)

contains-append : (n a t : Text) → contains n (a ++ t) ≡ false → contains n a ≡ false
unfolding contains
contains-append [] [] [] h = h
contains-append [] [] (x ∷ t) h = cc
contains-append (c ∷ n) [] t h = refl
contains-append n (d ∷ a) t h =
    ground (arith, starts_with-append n (d ∷ a) t, contains-append n a t)

contains-lstrip_by :
    (p : ℕ → Bool) (n s : Text) → contains n s ≡ false → contains n (lstrip_by p s) ≡ false
unfolding contains lstrip_by
contains-lstrip_by p n [] h = h
contains-lstrip_by p n (c ∷ s) h = ground (arith, contains-lstrip_by p n s)

contains-rstrip_by :
    (p : ℕ → Bool) (n s : Text) → contains n s ≡ false → contains n (rstrip_by p s) ≡ false
contains-rstrip_by p n s h =
    let (t, e) = rstrip_by_prefix p s in
    contains-append n (rstrip_by p s) t (sym (ap (λ u. contains n u) e) ∙ h)

-- Stripping makes no substring appear.
pub contains-strip_by :
    (p : ℕ → Bool) (n s : Text) → contains n s ≡ false → contains n (strip_by p s) ≡ false
unfolding strip_by
contains-strip_by p n s h = contains-rstrip_by p n (lstrip_by p s) (contains-lstrip_by p n s h)
