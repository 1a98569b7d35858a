-- ===== src/Common/Lists.antt =====
-- Lists as the program uses them: lengths, membership tests, `dict.fromkeys`, filters.
use Prim.Native.Nat.{ℕ, suc, zero, ◌+◌, ◌≤◌}
use mathlib.Core.Logic.{◌↔◌}
use mathlib.Core.Path.{◌≡◌, refl, sym, ap, ◌∙◌}
use mathlib.Core.Logic.{inl, inr}
use mathlib.Core.Bool.{Bool, true, false, ◌&&◌, ◌||◌}
use mathlib.Core.List.{List, [], ◌∷◌, ◌++◌, append-nil, append_assoc}
use native.Mathlib.Omega.{arith}
use dingzhen_notebook.Common.Tests.{if◌then◌else◌, Bool-cases}
use dingzhen_notebook.Common.Equality.{HasEquality, ◌==◌, ==_iff, ==-refl}

module _ {ℓ} {A : Type ℓ} where
  abbrev pub length : List A → ℕ
  length [] = 0
  length (x ∷ xs) = suc (length xs)

  abbrev pub take : ℕ → List A → List A
  take zero xs = []
  take (suc n) [] = []
  take (suc n) (x ∷ xs) = x ∷ take n xs

  -- `not xs`
  abbrev pub is_empty : List A → Bool
  is_empty [] = true
  is_empty (x ∷ xs) = false

  pub length-append : (xs ys : List A) → length (xs ++ ys) ≡ length xs + length ys
  length-append [] ys = omega arith
  length-append (x ∷ xs) ys = omega (arith, length-append xs ys)

  -- `[x for x in xs if p(x)]`
  unfoldable pub select : (A → Bool) → List A → List A
  select p [] = []
  select p (x ∷ xs) = if p x then x ∷ select p xs else select p xs

  abbrev pub All {κ} : (A → Type κ) → List A → Type κ
  All P [] = Unit
  All P (x ∷ xs) = P x × All P xs

  -- `all(p(x) for x in xs)` and `any(p(x) for x in xs)`
  unfoldable pub all : (A → Bool) → List A → Bool
  all p [] = true
  all p (x ∷ xs) = p x && all p xs

  unfoldable pub any : (A → Bool) → List A → Bool
  any p [] = false
  any p (x ∷ xs) = p x || any p xs

  -- How many items pass a test.
  unfoldable pub count : (A → Bool) → List A → ℕ
  count p [] = 0
  count p (x ∷ xs) = (if p x then 1 else 0) + count p xs

  pub length-select : (p : A → Bool) (xs : List A) → length (select p xs) ≡ count p xs
  unfolding select count
  length-select p [] = refl
  length-select p (x ∷ xs) = ground (arith, length-select p xs)

  pub count-append : (p : A → Bool) (xs ys : List A) → count p (xs ++ ys) ≡ count p xs + count p ys
  unfolding count
  count-append p [] ys = omega arith
  count-append p (x ∷ xs) ys = omega (arith, count-append p xs ys)

module _ {ℓ} {A : Type ℓ} ⦃e : HasEquality A⦄ where
  -- `a in xs`
  unfoldable pub elem : A → List A → Bool
  elem a [] = false
  elem a (x ∷ xs) = a == x || elem a xs

  -- `dict.fromkeys(xs)`, read as a list: the first of each, in order.
  unfoldable pub add_key : List A → A → List A
  unfolding elem
  add_key acc x = if elem x acc then acc else acc ++ x ∷ []

  unfoldable pub add_keys : List A → List A → List A
  unfolding add_key
  add_keys acc [] = acc
  add_keys acc (x ∷ xs) = add_keys (add_key acc x) xs

  unfoldable pub from_keys : List A → List A
  unfolding add_keys
  from_keys xs = add_keys [] xs

  abbrev pub IsNodup : List A → Type 0
  IsNodup [] = Unit
  IsNodup (x ∷ xs) = (elem x xs ≡ false) × IsNodup xs

  pub elem-append : (a : A) (xs ys : List A) → elem a (xs ++ ys) ≡ (elem a xs || elem a ys)
  unfolding elem
  elem-append a [] ys = refl
  elem-append a (x ∷ xs) ys = ground (arith, elem-append a xs ys)

  pub elem-add_key : (a x : A) (acc : List A) → elem a (add_key acc x) ≡ (elem a acc || a == x)
  unfolding add_key
  elem-add_key a x acc = elim (Bool-cases (elem x acc)) [
    | inl old ↦ ground (arith, ==_iff a x, old)
    | inr new ↦ rw new (rw (elem-append a acc (x ∷ [])) (ground arith))
  ]

  pub elem-add_keys :
      (a : A) (acc xs : List A) → elem a (add_keys acc xs) ≡ (elem a acc || elem a xs)
  unfolding add_keys
  elem-add_keys a acc [] = ground arith
  elem-add_keys a acc (x ∷ xs) =
      rw (elem-add_keys a (add_key acc x) xs) (rw (elem-add_key a x acc) (ground arith))

  pub elem-from_keys : (a : A) (xs : List A) → elem a (from_keys xs) ≡ elem a xs
  unfolding from_keys
  elem-from_keys a xs = elem-add_keys a [] xs

  IsNodup-snoc : (xs : List A) (a : A) → IsNodup xs → elem a xs ≡ false → IsNodup (xs ++ a ∷ [])
  unfolding elem
  IsNodup-snoc [] a h new = ground arith
  IsNodup-snoc (x ∷ xs) a h new =
      ground (arith, IsNodup-snoc xs a h.1, elem-append x xs (a ∷ []), ==_iff x a, ==_iff a x)

  IsNodup-add_keys : (acc xs : List A) → IsNodup acc → IsNodup (add_keys acc xs)
  unfolding add_keys
  IsNodup-add_keys acc [] h = h
  IsNodup-add_keys acc (x ∷ xs) h = elim (Bool-cases (elem x acc)) [
    | inl old ↦ rw old (IsNodup-add_keys acc xs h)
    | inr new ↦ rw new (IsNodup-add_keys (acc ++ x ∷ []) xs (IsNodup-snoc acc x h new))
  ]

  pub from_keys-IsNodup : (xs : List A) → IsNodup (from_keys xs)
  unfolding from_keys
  from_keys-IsNodup xs = IsNodup-add_keys [] xs tt

  -- Keys that are there already change nothing.
  pub add_keys_known : (acc xs : List A) → All (λ x. elem x acc ≡ true) xs → add_keys acc xs ≡ acc
  unfolding add_keys
  add_keys_known acc [] h = refl
  add_keys_known acc (x ∷ xs) h = rw (h.0) (add_keys_known acc xs h.1)

  -- The items of `xs` are new to `acc`.
  abbrev Fresh : List A → List A → Type 0
  Fresh acc xs = All (λ x. elem x acc ≡ false) xs

  Fresh-snoc :
      (acc : List A) (a : A) (xs : List A)
      → Fresh acc xs
      → elem a xs ≡ false
      → Fresh (acc ++ a ∷ []) xs
  unfolding elem
  Fresh-snoc acc a [] h new = tt
  Fresh-snoc acc a (x ∷ xs) h new =
      ground (arith, Fresh-snoc acc a xs h.1, elem-append x acc (a ∷ []), ==_iff x a, ==_iff a x)

  add_keys-Fresh : (acc xs : List A) → IsNodup xs → Fresh acc xs → add_keys acc xs ≡ acc ++ xs
  unfolding add_keys
  add_keys-Fresh acc [] h new = sym (append-nil acc)
  add_keys-Fresh acc (x ∷ xs) h new = rw (new.0) (
      add_keys-Fresh (acc ++ x ∷ []) xs h.1 (Fresh-snoc acc x xs new.1 h.0)
      ∙ append_assoc acc (x ∷ []) xs)

  Fresh-nil : (xs : List A) → Fresh [] xs
  unfolding elem
  Fresh-nil [] = tt
  Fresh-nil (x ∷ xs) = (refl, Fresh-nil xs)

  -- A list without repetitions is left alone.
  pub from_keys_of_nodup : (xs : List A) → IsNodup xs → from_keys xs ≡ xs
  unfolding from_keys
  from_keys_of_nodup xs h = add_keys-Fresh [] xs h (Fresh-nil xs)

  pub from_keys_idem : (xs : List A) → from_keys (from_keys xs) ≡ from_keys xs
  from_keys_idem xs = from_keys_of_nodup (from_keys xs) (from_keys-IsNodup xs)

  add_keys-append : (acc xs ys : List A) → add_keys acc (xs ++ ys) ≡ add_keys (add_keys acc xs) ys
  unfolding add_keys
  add_keys-append acc [] ys = refl
  add_keys-append acc (x ∷ xs) ys = add_keys-append (add_key acc x) xs ys

  All-elem_of_suffix : (pre xs : List A) → All (λ x. elem x (pre ++ xs) ≡ true) xs
  unfolding elem
  All-elem_of_suffix pre [] = tt
  All-elem_of_suffix pre (x ∷ xs) = (
    rw (elem-append x pre (x ∷ xs)) (ground (arith, ==-refl x)),
    rw (append_assoc pre (x ∷ []) xs) at (All-elem_of_suffix (pre ++ x ∷ []) xs),
  )

  -- Adding a part of a list without repetitions again gives the list back.
  pub from_keys-append_known :
      (xs ys : List A) → IsNodup xs → All (λ y. elem y xs ≡ true) ys → from_keys (xs ++ ys) ≡ xs
  unfolding from_keys
  from_keys-append_known xs ys h known =
      add_keys-append [] xs ys
      ∙ ap (λ l. add_keys l ys) (add_keys-Fresh [] xs h (Fresh-nil xs))
      ∙ add_keys_known xs ys known

  known_in_from_keys :
      (l xs : List A) → All (λ x. elem x l ≡ true) xs → All (λ x. elem x (from_keys l) ≡ true) xs
  known_in_from_keys l [] h = tt
  known_in_from_keys l (x ∷ xs) h = (rw (elem-from_keys x l) h.0, known_in_from_keys l xs h.1)

  pub from_keys-append_again :
      (xs ys : List A) → from_keys (from_keys (xs ++ ys) ++ ys) ≡ from_keys (xs ++ ys)
  from_keys-append_again xs ys =
      from_keys-append_known (from_keys (xs ++ ys)) ys (from_keys-IsNodup (xs ++ ys))
        (known_in_from_keys (xs ++ ys) ys (All-elem_of_suffix xs ys))

  is_empty-add_keys : (acc xs : List A) → is_empty (add_keys acc xs) ≡ (is_empty acc && is_empty xs)
  unfolding add_keys
  is_empty-add_keys [] [] = refl
  is_empty-add_keys (a ∷ acc) [] = refl
  is_empty-add_keys [] (x ∷ xs) = is_empty-add_keys (x ∷ []) xs
  is_empty-add_keys (a ∷ acc) (x ∷ xs) = elim (Bool-cases (elem x (a ∷ acc))) [
    | inl old ↦ rw old (is_empty-add_keys (a ∷ acc) xs)
    | inr new ↦ rw new (is_empty-add_keys (a ∷ (acc ++ x ∷ [])) xs)
  ]

  pub is_empty-from_keys : (xs : List A) → is_empty (from_keys xs) ≡ is_empty xs
  unfolding from_keys
  is_empty-from_keys xs = is_empty-add_keys [] xs

  length-add_keys-le : (acc xs : List A) → length (add_keys acc xs) ≤ length acc + length xs
  unfolding add_keys
  length-add_keys-le acc [] = omega arith
  length-add_keys-le acc (x ∷ xs) = elim (Bool-cases (elem x acc)) [
    | inl old ↦ rw old (omega (arith, length-add_keys-le acc xs))
    | inr new ↦
        rw new (omega (arith, length-add_keys-le (acc ++ x ∷ []) xs, length-append acc (x ∷ [])))
  ]

  Fresh-of_snoc :
      (acc : List A) (a : A) (xs : List A)
      → Fresh (acc ++ a ∷ []) xs
      → Fresh acc xs × (elem a xs ≡ false)
  unfolding elem
  Fresh-of_snoc acc a [] h = (tt, refl)
  Fresh-of_snoc acc a (x ∷ xs) h =
      ground (arith, Fresh-of_snoc acc a xs h.1, elem-append x acc (a ∷ []), ==_iff x a, ==_iff a x)

  IsNodup-of_length :
      (acc xs : List A)
      → length (add_keys acc xs) ≡ length acc + length xs
      → IsNodup xs × Fresh acc xs
  unfolding add_keys
  IsNodup-of_length acc [] h = (tt, tt)
  IsNodup-of_length acc (x ∷ xs) h = elim (Bool-cases (elem x acc)) [
    | inl old ↦ absurd (omega (arith, length-add_keys-le acc xs, rw old at h))
    | inr new ↦
        let (nodup, fresh) =
          IsNodup-of_length (acc ++ x ∷ []) xs
            (omega (arith, rw new at h, length-append acc (x ∷ []))) in
        let (old_fresh, absent) = Fresh-of_snoc acc x xs fresh in
        ((absent, nodup), (new, old_fresh))
  ]

  -- `len(xs) == len(set(xs))` exactly when nothing is repeated.
  pub IsNodup-iff_length : (xs : List A) → (length xs ≡ length (from_keys xs)) ↔ IsNodup xs
  unfolding from_keys
  IsNodup-iff_length xs = (
    λ h. (IsNodup-of_length [] xs (omega arith)).0,
    λ h. ap (λ l. length l) (sym (from_keys_of_nodup xs h)),
  )

module _ {ℓ κ} {A : Type ℓ} ⦃e : HasEquality A⦄ (P : A → Type κ) where
  All-snoc : (xs : List A) (y : A) → All P xs → P y → All P (xs ++ y ∷ [])
  All-snoc [] y h k = (k, tt)
  All-snoc (x ∷ xs) y h k = (h.0, All-snoc xs y h.1 k)

  All-add_keys : (acc xs : List A) → All P acc → All P xs → All P (add_keys acc xs)
  unfolding add_keys
  All-add_keys acc [] h k = h
  All-add_keys acc (x ∷ xs) h k = elim (Bool-cases (elem x acc)) [
    | inl old ↦ rw old (All-add_keys acc xs h k.1)
    | inr new ↦ rw new (All-add_keys (acc ++ x ∷ []) xs (All-snoc acc x h k.0) k.1)
  ]

  pub All-from_keys : (xs : List A) → All P xs → All P (from_keys xs)
  unfolding from_keys
  All-from_keys xs h = All-add_keys [] xs tt h

module _ {ℓ κ} {A : Type ℓ} (P : A → Type κ) where
  pub All-select : (p : A → Bool) (xs : List A) → All P xs → All P (select p xs)
  unfolding select
  All-select p [] h = tt
  All-select p (x ∷ xs) h = elim (Bool-cases (p x)) [
    | inl e ↦ rw e (h.0, All-select p xs h.1)
    | inr e ↦ rw e (All-select p xs h.1)
  ]

module _ {ℓ} {A : Type ℓ} where
  -- What is selected passes the test.
  pub select-passes : (p : A → Bool) (xs : List A) → All (λ x. p x ≡ true) (select p xs)
  unfolding select
  select-passes p [] = tt
  select-passes p (x ∷ xs) = elim (Bool-cases (p x)) [
    | inl e ↦ rw e (e, select-passes p xs)
    | inr e ↦ rw e (select-passes p xs)
  ]

module _ {ℓ} {A : Type ℓ} ⦃e : HasEquality A⦄ where
  pub elem-select : (a : A) (p : A → Bool) (xs : List A) → elem a (select p xs) ≡ (elem a xs && p a)
  unfolding elem select
  elem-select a p [] = refl
  elem-select a p (x ∷ xs) = elim (Bool-cases (a == x)) [
    | inl same ↦ rw ((==_iff a x).0 same) (ground (arith, elem-select x p xs, ==-refl x))
    | inr other ↦ ground (arith, elem-select a p xs)
  ]
