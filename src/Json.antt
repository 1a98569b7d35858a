-- ===== src/Json.antt =====
-- The values of `dict[str, Any]` and of `json.loads`, with the lookups, the truth value and the
-- `int()` that the program applies to them. A `dict` keeps its keys in insertion order.
use dingzhen_notebook.Common.{
  ℕ, ◌+◌, ◌-◌, ◌*◌, ◌≡◌, refl, Bool, true, false, not, ◌||◌, ◌&&◌, Option, none, some, List, [],
  ◌∷◌, arith, Text, text_eq, ◌==◌, ==_iff, ==-refl, ap, ◌∙◌, leb, nat_beq, if◌then◌else◌, is_empty,
  txt,
}
use dingzhen_notebook.Common.Int.{ℤ, pos, negsuc, sub_ℕ}
use dingzhen_notebook.Common.Strings.{strip}

mutual
  pub data Json : Type 0 where
    null : Json
    boolean : Bool → Json
    integer : ℤ → Json
    -- a float: its whole part, towards zero, and the digits after the point
    real : ℤ → ℕ → Json
    str : Text → Json
    arr : Items → Json
    obj : Fields → Json

  pub data Items : Type 0 where
    nil : Items
    cons : Json → Items → Items

  pub data Fields : Type 0 where
    end : Fields
    field : Text → Json → Fields → Fields

unfoldable pub to_list : Items → List Json
to_list nil = []
to_list (cons x xs) = x ∷ to_list xs

unfoldable pub from_list : List Json → Items
from_list [] = nil
from_list (x ∷ xs) = cons x (from_list xs)

pub to_list-from_list : (xs : List Json) → to_list (from_list xs) ≡ xs
unfolding to_list from_list
to_list-from_list [] = refl
to_list-from_list (x ∷ xs) = cc (to_list-from_list xs)

-- `d.get(key)`, where a missing key differs from a key with the value `None`
unfoldable pub get_field : Text → Fields → Option Json
get_field k end = none
get_field k (field j v d) = if k == j then some v else get_field k d

-- `d[key] = value`
unfoldable pub set_field : Text → Json → Fields → Fields
set_field k v end = field k v end
set_field k v (field j w d) = if k == j then field k v d else field j w (set_field k v d)

pub get_field-set_field :
    (k j : Text) (v : Json) (d : Fields)
    → get_field j (set_field k v d) ≡ (if j == k then some v else get_field j d)
unfolding get_field set_field
get_field-set_field k j v end = refl
get_field-set_field k j v (field i w d) =
    ground (arith, ==_iff k i, ==_iff j k, ==_iff j i, get_field-set_field k j v d)

-- `d.get(key, default)`
abbrev pub or_default : Json → Option Json → Json
or_default default none = default
or_default default (some v) = v

unfoldable pub get_or : Text → Json → Fields → Json
unfolding get_field
get_or k default d = or_default default (get_field k d)

pub get_or-set_field_self :
    (k : Text) (default v : Json) (d : Fields) → get_or k default (set_field k v d) ≡ v
unfolding get_or
get_or-set_field_self k default v d =
    ap (or_default default) (get_field-set_field k k v d) ∙ rw (==-refl k)

-- `bool(value)`
unfoldable pub truthy : Json → Bool
truthy null = false
truthy (boolean b) = b
truthy (integer (pos n)) = not (nat_beq n 0)
truthy (integer (negsuc n)) = true
truthy (real (pos n) d) = not (nat_beq n 0) || not (nat_beq d 0)
truthy (real (negsuc n) d) = true
truthy (str s) = not (is_empty s)
truthy (arr nil) = false
truthy (arr (cons x xs)) = true
truthy (obj end) = false
truthy (obj (field k v d)) = true

-- The zeros of Unicode's decimal digits; each begins a row of ten.
abbrev zeros : List ℕ
zeros =
    0x30 ∷ 0x660 ∷ 0x6f0 ∷ 0x7c0 ∷ 0x966 ∷ 0x9e6 ∷ 0xa66 ∷ 0xae6 ∷ 0xb66 ∷ 0xbe6 ∷ 0xc66 ∷ 0xce6
    ∷ 0xd66 ∷ 0xde6 ∷ 0xe50 ∷ 0xed0 ∷ 0xf20 ∷ 0x1040 ∷ 0x1090 ∷ 0x17e0 ∷ 0x1810 ∷ 0x1946 ∷ 0x19d0
    ∷ 0x1a80 ∷ 0x1a90 ∷ 0x1b50 ∷ 0x1bb0 ∷ 0x1c40 ∷ 0x1c50 ∷ 0xa620 ∷ 0xa8d0 ∷ 0xa900 ∷ 0xa9d0
    ∷ 0xa9f0 ∷ 0xaa50 ∷ 0xabf0 ∷ 0xff10 ∷ 0x104a0 ∷ 0x10d30 ∷ 0x11066 ∷ 0x110f0 ∷ 0x11136 ∷ 0x111d0
    ∷ 0x112f0 ∷ 0x11450 ∷ 0x114d0 ∷ 0x11650 ∷ 0x116c0 ∷ 0x11730 ∷ 0x118e0 ∷ 0x11950 ∷ 0x11c50
    ∷ 0x11d50 ∷ 0x11da0 ∷ 0x11f50 ∷ 0x16a60 ∷ 0x16ac0 ∷ 0x16b50 ∷ 0x1d7ce ∷ 0x1d7d8 ∷ 0x1d7e2
    ∷ 0x1d7ec ∷ 0x1d7f6 ∷ 0x1e140 ∷ 0x1e2f0 ∷ 0x1e4f0 ∷ 0x1e950 ∷ 0x1fbf0 ∷ []

-- The value of a decimal digit, of any script.
digit_from : List ℕ → ℕ → Option ℕ
digit_from [] c = none
digit_from (z ∷ zs) c = elim (leb z c && leb c (z + 9)) [
  | true ↦ some (c - z)
  | false ↦ digit_from zs c
]

-- Decimal digits, with single underscores between them; `seen` says that the last was a digit.
digits_from : ℕ → Bool → Text → Option ℕ
unfolding digit_from
digits_from n seen [] = if seen then some n else none
digits_from n seen (c ∷ s) = elim (digit_from zeros c) [
  | some d ↦ digits_from (n * 10 + d) true s
  | none ↦ elim (nat_beq c b'_' && seen) [ true ↦ digits_from n false s | false ↦ none ]
]

signed : Text → Option ℤ
unfolding digits_from
signed [] = none
signed (c ∷ s) =
    if nat_beq c b'-'
    then elim (digits_from 0 false s) [ none ↦ none | some n ↦ some (sub_ℕ 0 n) ]
    else if nat_beq c b'+'
    then elim (digits_from 0 false s) [ none ↦ none | some n ↦ some (pos n) ]
    else elim (digits_from 0 false (c ∷ s)) [ none ↦ none | some n ↦ some (pos n) ]

-- `int(value)`; `none` is the `TypeError` or `ValueError`.
unfoldable pub to_int : Json → Option ℤ
unfolding signed strip
to_int null = none
to_int (boolean true) = some (pos 1)
to_int (boolean false) = some (pos 0)
to_int (integer z) = some z
to_int (real z d) = some z
to_int (str s) = signed (strip s)
to_int (arr xs) = none
to_int (obj d) = none

-- `str(value)`, where `render` is Python's `str()` of a value that is not a string
module _ (render : Json → Text) where
  abbrev pub text_of : Json → Text
  text_of (str s) = s
  text_of null = render null
  text_of (boolean b) = render (boolean b)
  text_of (integer z) = render (integer z)
  text_of (real z d) = render (real z d)
  text_of (arr xs) = render (arr xs)
  text_of (obj d) = render (obj d)

to_int_underscored : to_int (str (txt " 1_0 ")) ≡ some (pos 10)
unfolding to_int txt
to_int_underscored = refl

to_int_negative : to_int (str (txt "-3")) ≡ some (negsuc 2)
unfolding to_int txt
to_int_negative = refl

to_int_wide : to_int (str (txt "１２")) ≡ some (pos 12)
unfolding to_int txt
to_int_wide = refl
