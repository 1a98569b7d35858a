-- ===== src/Ai/Protect/Laws.antt =====
-- A model's response never reaches the official fields.
use dingzhen_notebook.Common.{
  ◌≡◌, refl, ap, ◌∙◌, Bool, true, false, not, ◌&&◌, ◌||◌, Bool-cases, inl, inr, Option, Text, List,
  [], ◌∷◌, txt, elem, elem-from_keys, elem-append, from_keys, ◌++◌, text_beq, text_eq,
}
use dingzhen_notebook.Json.{
  Json, null, boolean, integer, real, str, arr, obj, Items, nil, cons, Fields, end, field,
}
use dingzhen_notebook.Ai.Protect.{
  is_official, strip_value, strip_items, strip_fields, open_envelope, read_content,
  normalise_content,
}

-- No key at any depth is an official field's name.
absurd_of {ℓ} : {A : Type ℓ} {b : Bool} → b ≡ false → b ≡ true → A
absurd_of f t = cc

unfoldable mutual
  unfolding is_official

  pub unofficial : Json → Bool
  unofficial (arr xs) = unofficial_items xs
  unofficial (obj d) = unofficial_fields d
  unofficial null = true
  unofficial (boolean b) = true
  unofficial (integer z) = true
  unofficial (real z n) = true
  unofficial (str s) = true

  pub unofficial_items : Items → Bool
  unofficial_items nil = true
  unofficial_items (cons x xs) = unofficial x && unofficial_items xs

  pub unofficial_fields : Fields → Bool
  unofficial_fields end = true
  unofficial_fields (field k v d) = not (is_official k) && unofficial v && unofficial_fields d

either_not : (a b : Bool) → (not a || not b) ≡ not (a && b)
either_not true b = refl
either_not false b = refl

both : (a b : Bool) → (a && b) ≡ true → (a ≡ true) × (b ≡ true)
both true true h = (refl, refl)
both true false h = cc
both false b h = cc

all_of : (a b c : Bool) → (not a && b && c) ≡ true → (a ≡ false) × (b ≡ true) × (c ≡ true)
all_of false true true h = (refl, refl, refl)
all_of false true false h = cc
all_of false false c h = cc
all_of true b c h = cc

mutual
  unfolding unofficial strip_value

  strip_value-unofficial : (v : Json) → unofficial (strip_value v).0 ≡ true
  strip_value-unofficial null = refl
  strip_value-unofficial (boolean b) = refl
  strip_value-unofficial (integer z) = refl
  strip_value-unofficial (real z n) = refl
  strip_value-unofficial (str s) = refl
  strip_value-unofficial (arr xs) = strip_items-unofficial xs
  strip_value-unofficial (obj d) = strip_fields-unofficial d

  strip_items-unofficial : (xs : Items) → unofficial_items (strip_items xs).0 ≡ true
  strip_items-unofficial nil = refl
  strip_items-unofficial (cons x xs) = rw (strip_value-unofficial x) (strip_items-unofficial xs)

  strip_fields-unofficial : (d : Fields) → unofficial_fields (strip_fields d).0 ≡ true
  strip_fields-unofficial end = refl
  strip_fields-unofficial (field k v d) = elim (Bool-cases (is_official k)) [
    | inl official ↦ rw official (strip_fields-unofficial d)
    | inr other ↦ rw other (rw other (rw (strip_value-unofficial v) (strip_fields-unofficial d)))
  ]

-- What the flag says: whether there was something to remove.
mutual
  unfolding unofficial strip_value

  strip_value-flag : (v : Json) → (strip_value v).1 ≡ not (unofficial v)
  strip_value-flag null = refl
  strip_value-flag (boolean b) = refl
  strip_value-flag (integer z) = refl
  strip_value-flag (real z n) = refl
  strip_value-flag (str s) = refl
  strip_value-flag (arr xs) = strip_items-flag xs
  strip_value-flag (obj d) = strip_fields-flag d

  strip_items-flag : (xs : Items) → (strip_items xs).1 ≡ not (unofficial_items xs)
  strip_items-flag nil = refl
  strip_items-flag (cons x xs) =
      rw (strip_value-flag x)
        (rw (strip_items-flag xs) (either_not (unofficial x) (unofficial_items xs)))

  strip_fields-flag : (d : Fields) → (strip_fields d).1 ≡ not (unofficial_fields d)
  strip_fields-flag end = refl
  strip_fields-flag (field k v d) = elim (Bool-cases (is_official k)) [
    | inl official ↦ rw official refl
    | inr other ↦ rw other (
        rw (strip_value-flag v)
          (rw (strip_fields-flag d) (either_not (unofficial v) (unofficial_fields d))))
  ]

mutual
  unfolding unofficial strip_value

  strip_value_free : (v : Json) → unofficial v ≡ true → (strip_value v).0 ≡ v
  strip_value_free null h = refl
  strip_value_free (boolean b) h = refl
  strip_value_free (integer z) h = refl
  strip_value_free (real z n) h = refl
  strip_value_free (str s) h = refl
  strip_value_free (arr xs) h = ap (λ l. arr l) (strip_items_free xs h)
  strip_value_free (obj d) h = ap (λ l. obj l) (strip_fields_free d h)

  strip_items_free : (xs : Items) → unofficial_items xs ≡ true → (strip_items xs).0 ≡ xs
  strip_items_free nil h = refl
  strip_items_free (cons x xs) h =
      let parts = both (unofficial x) (unofficial_items xs) h in
      cc (strip_value_free x parts.0, strip_items_free xs parts.1)

  strip_fields_free : (d : Fields) → unofficial_fields d ≡ true → (strip_fields d).0 ≡ d
  strip_fields_free end h = refl
  strip_fields_free (field k v d) h =
      let parts = all_of (is_official k) (unofficial v) (unofficial_fields d) h in
      rw (parts.0) (cc (strip_value_free v parts.1, strip_fields_free d parts.2))

-- A value stripped of its official fields has none left at any depth, and the flag says exactly
-- whether it had one.
pub strip_value_lem :
    (v : Json) → (unofficial (strip_value v).0 ≡ true) × ((strip_value v).1 ≡ not (unofficial v))
strip_value_lem v = (strip_value-unofficial v, strip_value-flag v)

-- A value without an official field at any depth comes back as it was.
pub strip_value-kept : (v : Json) → unofficial v ≡ true → (strip_value v).0 ≡ v
strip_value-kept v h = strip_value_free v h

elem-from_keys_append :
    (a : Text) (xs ys : List Text) → elem a ys ≡ true → elem a (from_keys (xs ++ ys)) ≡ true
elem-from_keys_append a xs ys h =
    elem-from_keys a (xs ++ ys) ∙ elem-append a xs ys ∙ rw h (or_true (elem a xs))
  where
    or_true : (b : Bool) → (b || true) ≡ true
    or_true true = refl
    or_true false = refl

warned :
    elem
      (txt "AI_ATTEMPTED_OFFICIAL_FIELD_IGNORED")
      (txt "AI_ATTEMPTED_OFFICIAL_FIELD_IGNORED" ∷ txt "NEEDS_REVIEW" ∷ [])
    ≡ true
unfolding elem txt text_beq
warned = refl

module _ (render : Json → Text) (parse : Text → Option Json) where
  -- What the model offered, before the official fields are taken out.
  abbrev pub offered : Json → Fields
  offered content =
      let value = read_content render parse content in
      (open_envelope render parse value.0 value.1).data_fields

  -- Whatever a model responds, the analysis kept of it has no official field at any depth.
  pub normalise_content-unofficial :
      (content : Json)
      → unofficial_fields (normalise_content render parse content).data_fields ≡ true
  unfolding normalise_content
  normalise_content-unofficial content = elim (Bool-cases (strip_fields (offered content)).1) [
    | inl removed ↦ rw removed (strip_fields-unofficial (offered content))
    | inr kept ↦ rw kept (strip_fields-unofficial (offered content))
  ]

  -- If the analysis that is taken from a response has an official field, at any depth, then the
  -- result is marked for review, with a warning that says so.
  pub normalise_content-marked :
      (content : Json)
      → unofficial_fields (offered content) ≡ false
      → ((normalise_content render parse content).needs_review ≡ true)
        × (elem
              (txt "AI_ATTEMPTED_OFFICIAL_FIELD_IGNORED")
              (normalise_content render parse content).warnings
            ≡ true)
  unfolding normalise_content
  normalise_content-marked content h =
      let opened =
        open_envelope render parse (read_content render parse content).0
          (read_content render parse content).1 in
      rw (strip_fields-flag (offered content) ∙ ap not h) (
        refl,
        elem-from_keys_append (txt "AI_ATTEMPTED_OFFICIAL_FIELD_IGNORED") opened.warnings
            (txt "AI_ATTEMPTED_OFFICIAL_FIELD_IGNORED" ∷ txt "NEEDS_REVIEW" ∷ []) warned,
      )
