-- ===== src/Analysis/Store.antt =====
-- `ErrorTagStore` of packages/analysis/analyzer.py: the tags by question, kept in memory until
-- they are applied.
use dingzhen_notebook.Common.{
  not, Option, none, some, List, [], ◌∷◌, ◌++◌, map, Text, text_eq, ◌==◌, select,
}
use dingzhen_notebook.Common.Dict.{Dict, lookup, insert}
use dingzhen_notebook.Common.Strings.{tidy}
use dingzhen_notebook.Json.{Json}
use dingzhen_notebook.Core.Question.{Question}
use dingzhen_notebook.Analysis.Tags.{get_error_tags, set_error_tags, normalized}

abbrev pub ErrorTagStore : Type 0
ErrorTagStore = Dict Text (List Text)

module _ (render : Json → Text) where
  unfoldable pub init_from : ErrorTagStore → List Question → ErrorTagStore
  unfolding insert get_error_tags
  init_from store [] = store
  init_from store (q ∷ qs) = init_from (insert q.id (get_error_tags render q) store) qs

  unfoldable pub init : List Question → ErrorTagStore
  unfolding init_from
  init qs = init_from [] qs

unfoldable pub get : ErrorTagStore → Text → List Text
unfolding lookup
get store id = elim (lookup id store) [ none ↦ [] | some tags ↦ tags ]

unfoldable pub set : ErrorTagStore → Text → List Text → ErrorTagStore × List Text
unfolding insert normalized
set store id tags = (insert id (normalized tags) store, normalized tags)

unfoldable pub add : ErrorTagStore → Text → Text → ErrorTagStore × List Text
unfolding set get
add store id tag = set store id (get store id ++ tag ∷ [])

unfoldable pub remove : ErrorTagStore → Text → Text → ErrorTagStore × List Text
unfolding set get select tidy
remove store id tag = set store id (select (λ item. not (item == tidy tag)) (get store id))

abbrev pub apply_tags : Option (List Text) → Question → Question
apply_tags none q = q
apply_tags (some tags) q = (set_error_tags q tags).0

unfoldable pub apply : ErrorTagStore → Question → Question
unfolding lookup set_error_tags
apply store q = apply_tags (lookup q.id store) q

unfoldable pub apply_all : ErrorTagStore → List Question → List Question
unfolding apply
apply_all store qs = map (apply store) qs
