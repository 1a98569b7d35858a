-- ===== src/Common/Sort.antt =====
-- Python's `sorted`: a stable sort by a key, with the orders of the keys that the program uses.
use Prim.Native.Nat.{ℕ, ◌+◌}
use mathlib.Core.Path.{◌≡◌, refl}
use mathlib.Core.Bool.{not, Bool, true, false, ◌&&◌, ◌||◌}
use mathlib.Core.List.Perm
use mathlib.Core.List.{List, [], ◌∷◌, Perm}
use mathlib.Core.Logic.{inl, inr}
use native.Mathlib.Omega.{arith}
use dingzhen_notebook.Common.Tests.{leb, ltb, nat_beq, if◌then◌else◌, Bool-cases}
use dingzhen_notebook.Common.Equality.{Text}
use dingzhen_notebook.Common.Lists.{All, length, count}

-- A reflexive order as a test: what `a <= b` says of two keys.
pub record Order {ℓ} (A : Type ℓ) : Type ℓ where
  pub le : A → A → Bool
  pub le_total : (a b : A) → le a b ≡ false → le b a ≡ true
  pub le_trans : (a b c : A) → le a b ≡ true → le b c ≡ true → le a c ≡ true

module _ {ℓ} {A : Type ℓ} (o : Order A) where
  open o use {le, le_total, le_trans}

  -- The new item came before all of the list, so it stays in front of its equals.
  unfoldable pub place : A → List A → List A
  place x [] = x ∷ []
  place x (y ∷ ys) = if le x y then x ∷ y ∷ ys else y ∷ place x ys

  unfoldable pub sort : List A → List A
  unfolding place
  sort [] = []
  sort (x ∷ xs) = place x (sort xs)

  abbrev pub IsSorted : List A → Type 0
  IsSorted [] = Unit
  IsSorted (x ∷ xs) = All (λ y. le x y ≡ true) xs × IsSorted xs

  All-le-place :
      (a x : A) (ys : List A)
      → le a x ≡ true
      → All (λ y. le a y ≡ true) ys
      → All (λ y. le a y ≡ true) (place x ys)
  unfolding place
  All-le-place a x [] h hs = (h, tt)
  All-le-place a x (y ∷ ys) h hs = ground (arith, All-le-place a x ys h hs.1)

  All-le_trans :
      (a b : A) (ys : List A)
      → le a b ≡ true
      → All (λ y. le b y ≡ true) ys
      → All (λ y. le a y ≡ true) ys
  All-le_trans a b [] h hs = tt
  All-le_trans a b (y ∷ ys) h hs = (le_trans a b y h hs.0, All-le_trans a b ys h hs.1)

  place-IsSorted : (x : A) (ys : List A) → IsSorted ys → IsSorted (place x ys)
  unfolding place
  place-IsSorted x [] h = (tt, tt)
  place-IsSorted x (y ∷ ys) h = elim (Bool-cases (le x y)) [
    | inl e ↦ rw e ((e, All-le_trans x y ys e h.0), h)
    | inr e ↦ rw e (All-le-place y x ys (le_total x y e) h.0, place-IsSorted x ys h.1)
  ]

  pub sort-IsSorted : (xs : List A) → IsSorted (sort xs)
  unfolding sort
  sort-IsSorted [] = tt
  sort-IsSorted (x ∷ xs) = place-IsSorted x (sort xs) (sort-IsSorted xs)

  place-perm : (x : A) (ys : List A) → Perm (place x ys) (x ∷ ys)
  unfolding place
  place-perm x [] = Perm.refl (x ∷ [])
  place-perm x (y ∷ ys) = elim (Bool-cases (le x y)) [
    | inl e ↦ rw e (Perm.refl (x ∷ y ∷ ys))
    | inr e ↦ rw e (Perm.trans (Perm.cons y (place-perm x ys)) (Perm.swap x y ys))
  ]

  pub sort-perm : (xs : List A) → Perm (sort xs) xs
  unfolding sort
  sort-perm [] = Perm.refl []
  sort-perm (x ∷ xs) = Perm.trans (place-perm x (sort xs)) (Perm.cons x (sort-perm xs))

  count-place : (p : A → Bool) (x : A) (ys : List A) → count p (place x ys) ≡ count p (x ∷ ys)
  unfolding place count
  count-place p x [] = refl
  count-place p x (y ∷ ys) = ground (arith, count-place p x ys)

  pub count-sort : (p : A → Bool) (xs : List A) → count p (sort xs) ≡ count p xs
  unfolding sort count
  count-sort p [] = refl
  count-sort p (x ∷ xs) = ground (arith, count-place p x (sort xs), count-sort p xs)

  length-place : (x : A) (ys : List A) → length (place x ys) ≡ length ys + 1
  unfolding place
  length-place x [] = refl
  length-place x (y ∷ ys) = ground (arith, length-place x ys)

  pub length-sort : (xs : List A) → length (sort xs) ≡ length xs
  unfolding sort
  length-sort [] = refl
  length-sort (x ∷ xs) = omega (arith, length-place x (sort xs), length-sort xs)

module _ {ℓ κ} {A : Type ℓ} (o : Order A) (P : A → Type κ) where
  All-place : (x : A) (ys : List A) → P x → All P ys → All P (place o x ys)
  unfolding place
  All-place x [] h hs = (h, tt)
  All-place x (y ∷ ys) h hs = elim (Bool-cases (o.le x y)) [
    | inl e ↦ rw e (h, hs)
    | inr e ↦ rw e (hs.0, All-place x ys h hs.1)
  ]

  pub All-sort : (xs : List A) → All P xs → All P (sort o xs)
  unfolding sort
  All-sort [] h = tt
  All-sort (x ∷ xs) h = All-place x (sort o xs) h.0 (All-sort xs h.1)

-- Comparison of strings, by code points.
unfoldable pub text_le : Text → Text → Bool
text_le [] b = true
text_le (x ∷ xs) [] = false
text_le (x ∷ xs) (y ∷ ys) = ltb x y || (nat_beq x y && text_le xs ys)

pub text_le_total : (a b : Text) → text_le a b ≡ false → text_le b a ≡ true
unfolding text_le
text_le_total [] b h = ground arith
text_le_total (x ∷ xs) [] h = refl
text_le_total (x ∷ xs) (y ∷ ys) h = ground (arith, text_le_total xs ys)

pub text_le_trans : (a b c : Text) → text_le a b ≡ true → text_le b c ≡ true → text_le a c ≡ true
unfolding text_le
text_le_trans [] b c h k = refl
text_le_trans (x ∷ xs) [] c h k = ground arith
text_le_trans (x ∷ xs) (y ∷ ys) [] h k = ground arith
text_le_trans (x ∷ xs) (y ∷ ys) (z ∷ zs) h k = ground (arith, text_le_trans xs ys zs)

abbrev pub text_order : Order Text
text_order = record { le = text_le; le_total = text_le_total; le_trans = text_le_trans }

-- The tuple `(number, text)` as a key.
unfoldable pub numbered_le : ℕ × Text → ℕ × Text → Bool
numbered_le (m, s) (n, t) = ltb m n || (nat_beq m n && text_le s t)

pub numbered_le_total : (a b : ℕ × Text) → numbered_le a b ≡ false → numbered_le b a ≡ true
unfolding numbered_le
numbered_le_total (m, s) (n, t) h = ground (arith, text_le_total s t)

pub numbered_le_trans :
    (a b c : ℕ × Text) → numbered_le a b ≡ true → numbered_le b c ≡ true → numbered_le a c ≡ true
unfolding numbered_le
numbered_le_trans (m, s) (n, t) (k, u) h h' = ground (arith, text_le_trans s t u)

abbrev pub numbered_order : Order (ℕ × Text)
numbered_order = record {
  le = numbered_le;
  le_total = numbered_le_total;
  le_trans = numbered_le_trans;
}

-- `key=f`
abbrev pub by {ℓ κ} : {A : Type ℓ} {B : Type κ} → (A → B) → Order B → Order A
by f o = record {
  le = λ a b. o.le (f a) (f b);
  le_total = λ a b. o.le_total (f a) (f b);
  le_trans = λ a b c. o.le_trans (f a) (f b) (f c);
}

-- The tuple `(text, number)` as a key.
unfoldable pub labelled_le : Text × ℕ → Text × ℕ → Bool
labelled_le (s, m) (t, n) = if text_le s t then not (text_le t s) || leb m n else false

pub labelled_le_total : (a b : Text × ℕ) → labelled_le a b ≡ false → labelled_le b a ≡ true
unfolding labelled_le
labelled_le_total (s, m) (t, n) h = ground (arith, text_le_total s t, text_le_total t s)

pub labelled_le_trans :
    (a b c : Text × ℕ) → labelled_le a b ≡ true → labelled_le b c ≡ true → labelled_le a c ≡ true
unfolding labelled_le
labelled_le_trans (s, m) (t, n) (u, k) h h' =
    ground (arith, text_le_trans s t u, text_le_trans t u s, text_le_trans u s t)

abbrev pub labelled_order : Order (Text × ℕ)
labelled_order = record {
  le = labelled_le;
  le_total = labelled_le_total;
  le_trans = labelled_le_trans;
}

-- A number before a key of another kind.
module _ {ℓ} {B : Type ℓ} (o : Order B) where
  unfoldable pub number_first_le : ℕ × B → ℕ × B → Bool
  number_first_le (m, s) (n, t) = ltb m n || (nat_beq m n && o.le s t)

  pub number_first_total : (a b : ℕ × B) → number_first_le a b ≡ false → number_first_le b a ≡ true
  unfolding number_first_le
  number_first_total (m, s) (n, t) h = ground (arith, o.le_total s t)

  pub number_first_trans :
      (a b c : ℕ × B)
      → number_first_le a b ≡ true
      → number_first_le b c ≡ true
      → number_first_le a c ≡ true
  unfolding number_first_le
  number_first_trans (m, s) (n, t) (k, u) h h' = ground (arith, o.le_trans s t u)

abbrev pub number_first {ℓ} : {B : Type ℓ} → Order B → Order (ℕ × B)
number_first o = record {
  le = number_first_le o;
  le_total = number_first_total o;
  le_trans = number_first_trans o;
}
