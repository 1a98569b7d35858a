-- ===== src/Capture/Session/Secrets.antt =====
-- `_SECRET_KEY` and `_safe_metadata` (packages/capture/session.py): no key that looks like a
-- credential is written to a checkpoint.
use dingzhen_notebook.Common.{
  ℕ, ◌+◌, ◌≡◌, refl, ap, ◌∙◌, Bool, true, false, not, ◌&&◌, ◌||◌, Option, none, some, List, [], ◌∷◌,
  ◌++◌, map, Text, text_eq, ◌==◌, txt, leb, nat_beq, if◌then◌else◌, any, Bool-cases, inl, inr,
}
use dingzhen_notebook.Json.{
  Json, null, boolean, integer, real, str, arr, obj, Items, nil, cons, Fields, end, field,
}

-- What `re.IGNORECASE` identifies with a lower-case letter: its capital, and four letters more.
unfoldable pub fold_char : ℕ → ℕ
fold_char c =
    if leb b'A' c && leb c b'Z'
    then c + 32
    else if nat_beq c 304 || nat_beq c 305
    then b'i'
    else if nat_beq c 383
    then b's'
    else if nat_beq c 8490
    then b'k'
    else c

-- The alternatives of the pattern, its optional `[_-]?` written out.
unfoldable pub secret_words : List Text
unfolding txt
secret_words =
    txt "token"
    ∷ txt "accesstoken"
    ∷ txt "access_token"
    ∷ txt "access-token"
    ∷ txt "refreshtoken"
    ∷ txt "refresh_token"
    ∷ txt "refresh-token"
    ∷ txt "password"
    ∷ txt "passwd"
    ∷ txt "secret"
    ∷ txt "cookie"
    ∷ txt "authorization"
    ∷ txt "credential"
    ∷ txt "account"
    ∷ txt "username"
    ∷ txt "login"
    ∷ txt "auth"
    ∷ txt "apikey"
    ∷ txt "api_key"
    ∷ txt "api-key"
    ∷ txt "session"
    ∷ []

-- `(word)s?$`, where `$` also matches before a last newline
unfoldable pub is_secret_word : Text → Bool
unfolding any txt secret_words
is_secret_word s =
    any (λ w. s == w || s == w ++ txt "s" || s == w ++ 10 ∷ [] || s == w ++ txt "s" ++ 10 ∷ [])
      secret_words

-- The search: `boundary` says that the pattern may start here.
unfoldable pub secret_from : Bool → Text → Bool
unfolding is_secret_word
secret_from boundary [] = false
secret_from boundary (c ∷ s) =
    (boundary && is_secret_word (c ∷ s)) || secret_from (nat_beq c b'_' || nat_beq c b'-') s

unfoldable pub is_secret_key : Text → Bool
unfolding secret_from fold_char
is_secret_key key = secret_from true (map fold_char key)

-- `if safe is not None: result[name] = safe`
abbrev pub put_safe : Text → Json → Fields → Fields
put_safe k null d = d
put_safe k (boolean b) d = field k (boolean b) d
put_safe k (integer z) d = field k (integer z) d
put_safe k (real z n) d = field k (real z n) d
put_safe k (str s) d = field k (str s) d
put_safe k (arr xs) d = field k (arr xs) d
put_safe k (obj v) d = field k (obj v) d

unfoldable mutual
  unfolding is_secret_key

  pub safe_value : Json → Json
  safe_value null = null
  safe_value (boolean b) = boolean b
  safe_value (integer z) = integer z
  safe_value (real z n) = real z n
  safe_value (str s) = str s
  safe_value (arr xs) = arr (safe_items xs)
  safe_value (obj d) = obj (safe_fields d)

  pub safe_items : Items → Items
  safe_items nil = nil
  safe_items (cons x xs) = cons (safe_value x) (safe_items xs)

  pub safe_fields : Fields → Fields
  safe_fields end = end
  safe_fields (field k v d) =
      if is_secret_key k then safe_fields d else put_safe k (safe_value v) (safe_fields d)

-- `_safe_metadata`: the test of its `key` parameter, then the value.
unfoldable pub safe_metadata : Json → Option Text → Json
unfolding safe_value is_secret_key
safe_metadata v none = safe_value v
safe_metadata v (some key) = if is_secret_key key then null else safe_value v

-- No key at any depth looks like a credential, and no key holds `None`.
abbrev pub is_null : Json → Bool
is_null null = true
is_null _ = false

unfoldable mutual
  unfolding is_secret_key

  pub secret_free : Json → Bool
  secret_free (arr xs) = secret_free_items xs
  secret_free (obj d) = secret_free_fields d
  secret_free null = true
  secret_free (boolean b) = true
  secret_free (integer z) = true
  secret_free (real z n) = true
  secret_free (str s) = true

  pub secret_free_items : Items → Bool
  secret_free_items nil = true
  secret_free_items (cons x xs) = secret_free x && secret_free_items xs

  pub secret_free_fields : Fields → Bool
  secret_free_fields end = true
  secret_free_fields (field k v d) =
      not (is_secret_key k) && not (is_null v) && secret_free v && secret_free_fields d

secret_free-put_safe :
    (k : Text) (v : Json) (d : Fields)
    → is_secret_key k ≡ false
    → secret_free v ≡ true
    → secret_free_fields d ≡ true
    → secret_free_fields (put_safe k v d) ≡ true
unfolding secret_free_fields
secret_free-put_safe k null d not_secret free rest = rest
secret_free-put_safe k (boolean b) d not_secret free rest = rw not_secret (rw free rest)
secret_free-put_safe k (integer z) d not_secret free rest = rw not_secret (rw free rest)
secret_free-put_safe k (real z n) d not_secret free rest = rw not_secret (rw free rest)
secret_free-put_safe k (str s) d not_secret free rest = rw not_secret (rw free rest)
secret_free-put_safe k (arr xs) d not_secret free rest = rw not_secret (rw free rest)
secret_free-put_safe k (obj v) d not_secret free rest = rw not_secret (rw free rest)

mutual
  unfolding secret_free safe_value

  value-safe : (v : Json) → secret_free (safe_value v) ≡ true
  value-safe null = refl
  value-safe (boolean b) = refl
  value-safe (integer z) = refl
  value-safe (real z n) = refl
  value-safe (str s) = refl
  value-safe (arr xs) = items-safe xs
  value-safe (obj d) = fields-safe d

  items-safe : (xs : Items) → secret_free_items (safe_items xs) ≡ true
  items-safe nil = refl
  items-safe (cons x xs) = rw (value-safe x) (items-safe xs)

  fields-safe : (d : Fields) → secret_free_fields (safe_fields d) ≡ true
  fields-safe end = refl
  fields-safe (field k v d) = elim (Bool-cases (is_secret_key k)) [
    | inl secret ↦ rw secret (fields-safe d)
    | inr harmless ↦ rw harmless (
        secret_free-put_safe k (safe_value v) (safe_fields d) harmless (value-safe v)
          (fields-safe d))
  ]

put_safe_lem : (k : Text) (v : Json) (d : Fields) → is_null v ≡ false → put_safe k v d ≡ field k v d
put_safe_lem k null d h = cc
put_safe_lem k (boolean b) d h = refl
put_safe_lem k (integer z) d h = refl
put_safe_lem k (real z n) d h = refl
put_safe_lem k (str s) d h = refl
put_safe_lem k (arr xs) d h = refl
put_safe_lem k (obj v) d h = refl

conjuncts :
    (a b c d : Bool)
    → (not a && not b && c && d) ≡ true
    → (a ≡ false) × (b ≡ false) × (c ≡ true) × (d ≡ true)
conjuncts false false true true h = (refl, refl, refl, refl)
conjuncts false false true false h = cc
conjuncts false false false d h = cc
conjuncts false true c d h = cc
conjuncts true b c d h = cc

both : (a b : Bool) → (a && b) ≡ true → (a ≡ true) × (b ≡ true)
both true true h = (refl, refl)
both true false h = cc
both false b h = cc

mutual
  unfolding secret_free safe_value

  safe_value_free : (v : Json) → secret_free v ≡ true → safe_value v ≡ v
  safe_value_free null h = refl
  safe_value_free (boolean b) h = refl
  safe_value_free (integer z) h = refl
  safe_value_free (real z n) h = refl
  safe_value_free (str s) h = refl
  safe_value_free (arr xs) h = ap (λ l. arr l) (safe_items_free xs h)
  safe_value_free (obj d) h = ap (λ l. obj l) (safe_fields_free d h)

  safe_items_free : (xs : Items) → secret_free_items xs ≡ true → safe_items xs ≡ xs
  safe_items_free nil h = refl
  safe_items_free (cons x xs) h =
      let parts = both (secret_free x) (secret_free_items xs) h in
      cc (safe_value_free x parts.0, safe_items_free xs parts.1)

  pub safe_fields_free : (d : Fields) → secret_free_fields d ≡ true → safe_fields d ≡ d
  safe_fields_free end h = refl
  safe_fields_free (field k v d) h =
      let parts =
        conjuncts (is_secret_key k) (is_null v) (secret_free v) (secret_free_fields d) h in
      rw (parts.0) (
        ap (λ w. put_safe k w (safe_fields d)) (safe_value_free v (parts.2))
        ∙ put_safe_lem k v (safe_fields d) (parts.1)
        ∙ ap (λ l. field k v l) (safe_fields_free d (parts.3)))

-- What `_safe_metadata` returns holds no credential-like key at any depth, and sanitizing it again
-- changes nothing.
pub safe_metadata_lem :
    (v : Json) (key : Option Text)
    → (secret_free (safe_metadata v key) ≡ true)
      × (safe_metadata (safe_metadata v key) none ≡ safe_metadata v key)
unfolding safe_metadata
safe_metadata_lem v none = (value-safe v, safe_value_free (safe_value v) (value-safe v))
safe_metadata_lem v (some key) = elim (Bool-cases (is_secret_key key)) [
  | inl secret ↦ rw secret ((unfold secret_free in refl), unfold safe_value in refl)
  | inr harmless ↦ rw harmless (value-safe v, safe_value_free (safe_value v) (value-safe v))
]
