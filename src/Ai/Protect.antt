-- ===== src/Ai/Protect.antt =====
-- `_strip_protected` and `_normalise_content` (packages/ai/service.py): what is left of a model's
-- response. `render` is Python's `str()` of a value that is no string, `parse` is `json.loads`.
pub mod Laws
use dingzhen_notebook.Common.{
  ℕ, zero, suc, Bool, true, false, not, ◌&&◌, ◌||◌, Option, none, some, List, [], ◌∷◌, ◌++◌, map,
  Text, text_eq, ◌==◌, txt, if◌then◌else◌, is_empty, elem, from_keys, nat_beq,
}
use dingzhen_notebook.Common.Strings.{strip, strip_by, lstrip_by, lower, starts_with}
use dingzhen_notebook.Json.{
  Json, null, boolean, integer, real, str, arr, obj, Items, nil, cons, Fields, end, field, to_list,
  get_field, get_or, set_field, truthy, text_of,
}

unfoldable pub official_aliases : List Text
unfolding txt
official_aliases =
    txt "official_answer"
    ∷ txt "official_explanation"
    ∷ txt "official_explanation_md"
    ∷ txt "official_knowledge_points"
    ∷ []

-- `name.lower() in _OFFICIAL_ALIASES`
unfoldable pub is_official : Text → Bool
unfolding elem lower official_aliases
is_official name = elem (lower name) official_aliases

unfoldable mutual
  unfolding is_official

  -- `_strip_protected(value)`, beside whether something was removed
  pub strip_value : Json → Json × Bool
  strip_value null = (null, false)
  strip_value (boolean b) = (boolean b, false)
  strip_value (integer z) = (integer z, false)
  strip_value (real z n) = (real z n, false)
  strip_value (str s) = (str s, false)
  strip_value (arr xs) = (arr (strip_items xs).0, (strip_items xs).1)
  strip_value (obj d) = (obj (strip_fields d).0, (strip_fields d).1)

  pub strip_items : Items → Items × Bool
  strip_items nil = (nil, false)
  strip_items (cons x xs) =
      (cons (strip_value x).0 (strip_items xs).0, (strip_value x).1 || (strip_items xs).1)

  -- A field under an official name is dropped, whatever it holds.
  pub strip_fields : Fields → Fields × Bool
  strip_fields end = (end, false)
  strip_fields (field name v d) = if is_official name then ((strip_fields d).0, true) else (
    field name (strip_value v).0 (strip_fields d).0,
    (strip_value v).1 || (strip_fields d).1,
  )

-- The keys of the envelope that are no analysis.
unfoldable pub without_envelope : Fields → Fields
unfolding elem txt
without_envelope end = end
without_envelope (field k v d) =
    let rest = without_envelope d in
    if elem k (txt "warnings" ∷ txt "status" ∷ txt "controversy_note" ∷ [])
    then rest
    else field k v rest

-- `dict(value)` when the value is a mapping
abbrev pub as_mapping : Option Json → Option Fields
as_mapping (some (obj d)) = some d
as_mapping _ = none

-- The analysis in a response: under `ai_fields`, under `data`, or the response itself.
unfoldable pub analysis_in : Fields → Fields
unfolding get_field without_envelope txt
analysis_in envelope = elim (as_mapping (get_field (txt "ai_fields") envelope)) [
  | some d ↦ d
  | none ↦ elim (as_mapping (get_field (txt "data") envelope)) [
    | some d ↦ d
    | none ↦ without_envelope envelope
  ]
]

abbrev pub drop : ℕ → Text → Text
drop zero s = s
drop (suc n) [] = []
drop (suc n) (c ∷ s) = drop n s

-- A markdown fence around JSON is taken off.
unfoldable pub unfence : Text → Text
unfolding starts_with strip strip_by lstrip_by lower txt
unfence content =
    let text = strip content in
    let inner = strip (strip_by (λ c. nat_beq c b'`') text) in
    if starts_with (txt "```") text
    then (if starts_with (txt "json") (lower inner)
        then lstrip_by (λ c. nat_beq c 10 || nat_beq c 32) (drop 4 inner)
        else inner)
    else text

abbrev pub key_texts : Fields → List Text
key_texts end = []
key_texts (field k v d) = k ∷ key_texts d

-- `None` is not iterable, nor is a number: they add nothing.
abbrev pub warnings_in : (Json → Text) → Json → List Text
warnings_in render (str s) = s ∷ []
warnings_in render (arr xs) = map (text_of render) (to_list xs)
warnings_in render (obj d) = key_texts d
warnings_in render null = []
warnings_in render (boolean b) = []
warnings_in render (integer z) = []
warnings_in render (real z n) = []

-- Data, warnings, and whether a person has to look.
pub record Content : Type 0 where
  pub data_fields : Fields
  pub warnings : List Text
  pub needs_review : Bool

module _ (render : Json → Text) (parse : Text → Option Json) where
  -- The response as a value: a text is parsed, and kept whole when it is no JSON.
  unfoldable pub read_content : Json → Json × List Text
  unfolding unfence txt
  read_content (str content) = elim (parse (unfence content)) [
    | some v ↦ (v, [])
    | none ↦ (obj (field (txt "raw_analysis") (str content) end), txt "AI_RESPONSE_NOT_JSON" ∷ [])
  ]
  read_content null = (null, [])
  read_content (boolean b) = (boolean b, [])
  read_content (integer z) = (integer z, [])
  read_content (real z n) = (real z n, [])
  read_content (arr xs) = (arr xs, [])
  read_content (obj d) = (obj d, [])

  -- The data of an envelope, the warnings in it, and whether it disputes an official field.
  unfoldable pub open_envelope : Json → List Text → Content
  unfolding analysis_in get_or set_field truthy txt
  open_envelope (obj envelope) warnings =
      let found = warnings ++ warnings_in render (get_or (txt "warnings") (arr nil) envelope) in
      let controversy = get_or (txt "controversy_note") null envelope in
      if truthy controversy
      then record {
        data_fields =
            set_field (txt "controversy_note") (str (text_of render controversy))
              (analysis_in envelope);
        warnings = found ++ txt "AI提出官方字段争议，请人工核对" ∷ [];
        needs_review = true;
      }
      else record { data_fields = analysis_in envelope; warnings = found; needs_review = false }
  open_envelope v warnings = record {
    data_fields = field (txt "raw_analysis") v end;
    warnings = warnings;
    needs_review = false;
  }

  unfoldable pub normalise_content : Json → Content
  unfolding read_content open_envelope strip_fields from_keys txt
  normalise_content content =
      let value = read_content content in
      let opened = open_envelope value.0 value.1 in
      let stripped = strip_fields opened.data_fields in
      if stripped.1
      then record {
        data_fields = stripped.0;
        warnings = from_keys (
            opened.warnings ++ txt "AI_ATTEMPTED_OFFICIAL_FIELD_IGNORED" ∷ txt "NEEDS_REVIEW" ∷ []);
        needs_review = true;
      }
      else record {
        data_fields = stripped.0;
        warnings = from_keys opened.warnings;
        needs_review = opened.needs_review;
      }
