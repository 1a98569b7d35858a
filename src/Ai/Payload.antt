-- ===== src/Ai/Payload.antt =====
-- What the service reads from a payload (packages/ai/service.py): the official fields apart from
-- the rest, the questions in it, and which official fields are missing. `render` is Python's
-- `str()` of a value that is no string.
use dingzhen_notebook.Common.{
  ℕ, Bool, true, false, not, ◌||◌, Option, none, some, List, [], ◌∷◌, ◌++◌, map, Text, text_eq, txt,
  if◌then◌else◌, is_empty, is_some, elem, any, nat_beq, count,
}
use dingzhen_notebook.Common.Strings.{strip, lower, contains}
use dingzhen_notebook.Json.{
  Json, null, boolean, integer, real, str, arr, obj, Items, nil, cons, Fields, end, field, to_list,
  get_field, get_or, truthy, text_of,
}
use dingzhen_notebook.Ai.Protect.{official_aliases}
use dingzhen_notebook.Capture.Session.Secrets.{put_safe}

pub data AnalysisKind : Type 0 where
  question_error paper history learning_strategy review_plan : AnalysisKind

-- `key.lower().replace("-", "_")` holds one of these.
unfoldable pub secret_tokens : List Text
unfolding txt
secret_tokens =
    txt "api_key"
    ∷ txt "apikey"
    ∷ txt "access_token"
    ∷ txt "refresh_token"
    ∷ txt "password"
    ∷ txt "passwd"
    ∷ txt "cookie"
    ∷ txt "authorization"
    ∷ txt "secret"
    ∷ []

unfoldable pub is_secret_name : Text → Bool
unfolding any contains lower secret_tokens
is_secret_name key =
    let name = map (λ c. if nat_beq c b'-' then b'_' else c) (lower key) in
    any (λ token. contains token name) secret_tokens

-- `_safe_value` and `_safe_mapping`: credentials are left out, and so is what is `None`.
unfoldable mutual
  unfolding is_secret_name

  pub safe_value : Json → Json
  safe_value null = null
  safe_value (boolean b) = boolean b
  safe_value (integer z) = integer z
  safe_value (real z n) = real z n
  safe_value (str s) = str s
  safe_value (arr xs) = arr (safe_items xs)
  safe_value (obj d) = obj (safe_mapping d)

  pub safe_items : Items → Items
  safe_items nil = nil
  safe_items (cons x xs) = cons (safe_value x) (safe_items xs)

  pub safe_mapping : Fields → Fields
  safe_mapping end = end
  safe_mapping (field k v d) =
      if is_secret_name k then safe_mapping d else put_safe k (safe_value v) (safe_mapping d)

-- `PROTECTED_OFFICIAL_FIELDS`
unfoldable pub is_protected : Text → Bool
unfolding elem official_aliases
is_protected key = elem key official_aliases

abbrev pub is_end : Fields → Bool
is_end end = true
is_end (field k v d) = false

-- A field that is there only with something in it.
abbrev pub put_some : Text → Option Json → Fields → Fields
put_some k none d = d
put_some k (some v) d = field k v d

-- `_partition_payload`: the official fields, and the rest.
unfoldable mutual
  unfolding is_protected safe_value

  pub partition_fields : Fields → Fields × Fields
  partition_fields end = (end, end)
  partition_fields (field k v d) =
      if is_protected k
      then (field k (safe_value v) (partition_fields d).0, (partition_fields d).1)
      else (
        put_some k (partition_value v).0 (partition_fields d).0,
        field k (partition_value v).1 (partition_fields d).1,
      )

  -- The value of an unprotected field: its official part, if any, and the rest.
  pub partition_value : Json → Option Json × Json
  partition_value (obj e) = (
    if is_end (partition_fields e).0 then none else some (obj (partition_fields e).0),
    obj (partition_fields e).1,
  )
  partition_value (arr xs) = (
    if (partition_items xs).2 then some (arr (partition_items xs).0) else none,
    arr (partition_items xs).1,
  )
  partition_value null = (none, null)
  partition_value (boolean b) = (none, boolean b)
  partition_value (integer z) = (none, integer z)
  partition_value (real z n) = (none, real z n)
  partition_value (str s) = (none, str s)

  -- The items of a list, and whether one has official fields.
  pub partition_items : Items → Items × Items × Bool
  partition_items nil = (nil, nil, false)
  partition_items (cons x xs) = (
    cons (partition_item x).0 (partition_items xs).0,
    cons (partition_item x).1 (partition_items xs).1,
    (partition_item x).2 || (partition_items xs).2,
  )

  pub partition_item : Json → Json × Json × Bool
  partition_item (obj e) =
      (obj (partition_fields e).0, obj (partition_fields e).1, not (is_end (partition_fields e).0))
  partition_item (arr xs) = (obj end, arr (safe_items xs), false)
  partition_item null = (obj end, null, false)
  partition_item (boolean b) = (obj end, boolean b, false)
  partition_item (integer z) = (obj end, integer z, false)
  partition_item (real z n) = (obj end, real z n, false)
  partition_item (str s) = (obj end, str s, false)

-- `_partition_payload` of any value
unfoldable pub partition_payload : Json → Fields × Fields
unfolding partition_fields safe_value txt
partition_payload (obj d) = partition_fields d
partition_payload v = (end, field (txt "value") (safe_value v) end)

-- `_find_questions`
abbrev pub question_in : Fields → List Json
question_in d =
    if is_some (get_field (txt "official_answer") d) || is_some (get_field (txt "stem_md") d)
    then obj d ∷ []
    else []

abbrev pub listed_or : Json → List Json → List Json
listed_or (arr xs) otherwise = to_list xs
listed_or _ otherwise = otherwise

unfoldable pub find_questions : Json → List Json
unfolding get_field get_or txt
find_questions (obj d) = listed_or (get_or (txt "questions") null d) (question_in d)
find_questions (arr xs) = to_list xs
find_questions _ = []

-- What a payload misses: fields of its question, or a number of questions in it.
pub data Missing : Type 0 where
  missing_answer missing_explanation : Missing
  questions_missing : ℕ → Missing

module _ (render : Json → Text) where
  -- `official.get("official_explanation_md") or official.get("official_explanation")`
  unfoldable pub explanation_of : Fields → Json
  unfolding get_or truthy txt
  explanation_of official =
      let md = get_or (txt "official_explanation_md") null official in
      if truthy md then md else get_or (txt "official_explanation") null official

  -- `not official.get("official_answer")`
  unfoldable pub no_answer : Fields → Bool
  unfolding get_or truthy txt
  no_answer official = not (truthy (get_or (txt "official_answer") null official))

  -- `not str(explanation or "").strip()`
  unfoldable pub no_explanation : Fields → Bool
  unfolding explanation_of truthy strip
  no_explanation official =
      let v = explanation_of official in not (truthy v) || is_empty (strip (text_of render v))

  unfoldable pub is_incomplete : Json → Bool
  unfolding partition_payload no_answer no_explanation
  is_incomplete question =
      let official = (partition_payload question).0 in no_answer official || no_explanation official

  unfoldable pub missing_official_fields : AnalysisKind → Fields → Json → List Missing
  unfolding no_answer no_explanation find_questions is_incomplete count
  missing_official_fields kind official payload = elim kind [
    | question_error ↦
        (if no_answer official then missing_answer ∷ [] else [])
        ++ (if no_explanation official then missing_explanation ∷ [] else [])
    | _ ↦
        let n = count is_incomplete (find_questions payload) in
        if nat_beq n 0 then [] else questions_missing n ∷ []
  ]
