-- ===== src/Common/Groups.antt =====
-- `defaultdict(list)`: grouping the items of a list under keys.
use Prim.Native.Nat.{ℕ, ◌+◌}
use mathlib.Core.Path.{◌≡◌, refl, sym, ◌∙◌}
use mathlib.Core.Logic.{inl, inr}
use mathlib.Core.List.{List, [], ◌∷◌, ◌++◌, map, append-nil, append_assoc}
use native.Mathlib.Omega.{arith}
use dingzhen_notebook.Common.Tests.{if◌then◌else◌, Bool-cases}
use dingzhen_notebook.Common.Equality.{HasEquality, ◌==◌, ==_iff}
use dingzhen_notebook.Common.Lists.{length, length-append, select}
use dingzhen_notebook.Common.Dict.{Dict}

module _ {ℓ κ} {K : Type ℓ} {V : Type κ} ⦃e : HasEquality K⦄ where
  -- `d[k].append(x)`
  unfoldable pub push : K → V → Dict K (List V) → Dict K (List V)
  push k x [] = (k, x ∷ []) ∷ []
  push k x ((j, xs) ∷ d) = if k == j then (j, xs ++ x ∷ []) ∷ d else (j, xs) ∷ push k x d

  -- `d.get(k, [])`
  unfoldable pub get_list : K → Dict K (List V) → List V
  get_list k [] = []
  get_list k ((j, xs) ∷ d) = if k == j then xs else get_list k d

  pub get_list-push :
      (k j : K) (x : V) (d : Dict K (List V))
      → get_list j (push k x d) ≡ (if j == k then get_list j d ++ x ∷ [] else get_list j d)
  unfolding push get_list
  get_list-push k j x [] = refl
  get_list-push k j x ((i, xs) ∷ d) =
      ground (arith, ==_iff k i, ==_iff j k, ==_iff j i, get_list-push k j x d)

module _ {ℓ κ} {K : Type ℓ} {V : Type κ} where
  -- `sum(len(items) for items in d.values())`
  unfoldable pub total_items : Dict K (List V) → ℕ
  total_items [] = 0
  total_items ((k, xs) ∷ d) = length xs + total_items d

  unfoldable pub map_values : (List V → List V) → Dict K (List V) → Dict K (List V)
  map_values f [] = []
  map_values f ((k, xs) ∷ d) = (k, f xs) ∷ map_values f d

  pub total-map_values :
      (f : List V → List V)
      → ((xs : List V) → length (f xs) ≡ length xs)
      → (d : Dict K (List V)) → total_items (map_values f d) ≡ total_items d
  unfolding total_items map_values
  total-map_values f h [] = refl
  total-map_values f h ((k, xs) ∷ d) = omega (arith, h xs, total-map_values f h d)

module _ {ℓ κ} {K : Type ℓ} {V : Type κ} ⦃e : HasEquality K⦄ where
  pub get_list-map_values :
      (f : List V → List V)
      → f [] ≡ []
      → (k : K) (d : Dict K (List V)) → get_list k (map_values f d) ≡ f (get_list k d)
  unfolding get_list map_values
  get_list-map_values f h k [] = sym h
  get_list-map_values f h k ((j, xs) ∷ d) = elim (Bool-cases (k == j)) [
    | inl same ↦ rw same
    | inr other ↦ rw other (get_list-map_values f h k d)
  ]

  total-push : (k : K) (x : V) (d : Dict K (List V)) → total_items (push k x d) ≡ total_items d + 1
  unfolding total_items push
  total-push k x [] = refl
  total-push k x ((j, xs) ∷ d) = elim (Bool-cases (k == j)) [
    | inl same ↦ rw same (omega (arith, length-append xs (x ∷ [])))
    | inr other ↦ rw other (omega (arith, total-push k x d))
  ]

  module _ {μ} {A : Type μ} (key : A → K) (value : A → V) where
    -- `for x in xs: d[key(x)].append(value(x))`
    unfoldable pub group_from : Dict K (List V) → List A → Dict K (List V)
    unfolding push
    group_from d [] = d
    group_from d (x ∷ xs) = group_from (push (key x) (value x) d) xs

    pub get_list-group_from :
        (k : K) (d : Dict K (List V)) (xs : List A)
        → get_list k (group_from d xs) ≡ get_list k d ++ map value (select (λ x. k == key x) xs)
    unfolding group_from select
    get_list-group_from k d [] = sym (append-nil (get_list k d))
    get_list-group_from k d (x ∷ xs) = elim (Bool-cases (k == key x)) [
      | inl same ↦
          get_list-group_from k (push (key x) (value x) d) xs
          ∙ rw (get_list-push (key x) k (value x) d)
              (rw same (append_assoc (get_list k d) (value x ∷ []) _))
      | inr other ↦
          get_list-group_from k (push (key x) (value x) d) xs
          ∙ rw (get_list-push (key x) k (value x) d) (rw other)
    ]

    pub total-group_from :
        (d : Dict K (List V)) (xs : List A)
        → total_items (group_from d xs) ≡ total_items d + length xs
    unfolding group_from
    total-group_from d [] = omega arith
    total-group_from d (x ∷ xs) =
        omega
          (arith, total-group_from (push (key x) (value x) d) xs, total-push (key x) (value x) d)
