-- ===== src/Analysis/Tags.antt =====
-- Editable error tags (packages/analysis/analyzer.py): they live in `ai_analysis`, apart from the
-- official fields. `render` is Python's `str()` of a JSON value that is not a string.

pub mod Laws
use dingzhen_notebook.Common.{
  ℕ, Bool, true, false, not, Option, none, some, List, [], ◌∷◌, ◌++◌, map, Text, text_eq, ◌==◌, txt,
  is_empty, if◌then◌else◌, select, from_keys,
}
use dingzhen_notebook.Common.Strings.{strip, tidy}
use dingzhen_notebook.Json.{
  Json, null, boolean, integer, real, str, arr, obj, Items, nil, cons, Fields, end, field, to_list,
  from_list, get_or, set_field, text_of,
}
use dingzhen_notebook.Core.Question.{Question, assign_ai_analysis}

-- `[str(tag).strip().upper() for tag in tags if str(tag).strip()]`
unfoldable pub tidied : List Text → List Text
unfolding select strip tidy
tidied tags = map tidy (select (λ tag. not (is_empty (strip tag))) tags)

-- `list(dict.fromkeys(...))` of these
unfoldable pub normalized : List Text → List Text
unfolding from_keys tidied
normalized tags = from_keys (tidied tags)

-- `question.ai_analysis or {}`
abbrev pub fields_of : Question → Fields
fields_of q = elim q.ai_analysis [ none ↦ end | some d ↦ d ]

module _ (render : Json → Text) where
  -- A single string is one tag; what is neither a string nor a list holds none.
  abbrev pub as_tags : Json → List Text
  as_tags (str s) = s ∷ []
  as_tags (arr xs) = map (text_of render) (to_list xs)
  as_tags null = []
  as_tags (boolean b) = []
  as_tags (integer z) = []
  as_tags (real z d) = []
  as_tags (obj d) = []

  -- The tags under the first of three keys that is there.
  unfoldable pub tags_in : Fields → List Text
  unfolding tidied get_or txt to_list
  tags_in d =
      let oldest = get_or (txt "tags") (arr nil) d in
      let older = get_or (txt "error_tag") oldest d in
      tidied (as_tags (get_or (txt "error_tags") older d))

  -- `_get_tag_values`
  unfoldable pub get_tag_values : Question → List Text
  unfolding tags_in
  get_tag_values q = tags_in (fields_of q)

  unfoldable pub get_error_tags : Question → List Text
  unfolding get_tag_values from_keys
  get_error_tags q = from_keys (get_tag_values q)

-- A list of strings as a JSON value.
abbrev pub texts : List Text → Json
texts tags = arr (from_list (map (λ s. str s) tags))

-- Returns the mutated question beside the normalized tags.
unfoldable pub set_error_tags : Question → List Text → Question × List Text
unfolding normalized set_field txt from_list assign_ai_analysis
set_error_tags q tags =
    let tags' = normalized tags in
    (assign_ai_analysis (some (set_field (txt "error_tags") (texts tags') (fields_of q))) q, tags')

module _ (render : Json → Text) where
  unfoldable pub add_error_tag : Question → Text → Question × List Text
  unfolding set_error_tags get_error_tags
  add_error_tag q tag = set_error_tags q (get_error_tags render q ++ tag ∷ [])

  unfoldable pub remove_error_tag : Question → Text → Question × List Text
  unfolding set_error_tags get_error_tags select tidy
  remove_error_tag q tag =
      set_error_tags q (select (λ item. not (item == tidy tag)) (get_error_tags render q))
