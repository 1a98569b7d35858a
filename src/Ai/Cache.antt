-- ===== src/Ai/Cache.antt =====
-- The result of an analysis (packages/ai/models.py) and the caches of results
-- (packages/ai/cache.py). A file cache and an SQLite cache are tables from keys to what is read back
-- from the stored JSON text; keys are hexadecimal digits. Reading and writing a table does not fail.
use dingzhen_notebook.Common.{
  ℕ, not, ◌&&◌, Option, none, some, List, [], ◌∷◌, Text, text_eq, ◌==◌, txt, if◌then◌else◌,
  is_empty, select, from_keys,
}
use dingzhen_notebook.Common.Dict.{Dict, lookup, insert}
use dingzhen_notebook.Common.Sort.{text_order}
use dingzhen_notebook.Common.Strings.{strip}
use dingzhen_notebook.Json.{
  Json, null, boolean, integer, real, str, arr, obj, Items, nil, cons, Fields, end, field,
}
use dingzhen_notebook.Ai.Stats.{AiUsage}
use dingzhen_notebook.Ai.Payload.{
  AnalysisKind, question_error, paper, history, learning_strategy, review_plan, is_secret_name,
}

pub data AnalysisStatus : Type 0 where
  completed cached needs_review failed : AnalysisStatus

unfoldable pub status_value : AnalysisStatus → Text
unfolding txt
status_value completed = txt "completed"
status_value cached = txt "cached"
status_value needs_review = txt "needs_review"
status_value failed = txt "failed"

unfoldable pub kind_value : AnalysisKind → Text
unfolding txt
kind_value question_error = txt "question_error"
kind_value paper = txt "paper"
kind_value history = txt "history"
kind_value learning_strategy = txt "learning_strategy"
kind_value review_plan = txt "review_plan"

pub record AnalysisResult : Type 0 where
  pub kind : AnalysisKind
  pub data_fields : Fields
  pub status : AnalysisStatus
  pub warnings : List Text
  pub entity_id : Option Text
  pub model : Text
  pub prompt_version : Text
  pub input_hash : Text
  pub cache_key : Text
  pub usage : AiUsage
  pub created_at : ℕ
  pub cached_from : Option Text

-- `__post_init__` on the warnings: each one once, and no blank one.
unfoldable pub clean_warnings : List Text → List Text
unfolding from_keys select strip
clean_warnings warnings = from_keys (select (λ s. not (is_empty (strip s))) warnings)

-- A field in the place that `sort_keys` gives it.
unfoldable pub place_field : Text → Json → Fields → Fields
place_field k v end = field k v end
place_field k v (field j w d) =
    let rest = place_field k v d in
    if text_order.le k j then field k v (field j w d) else field j w rest

-- `_redact_secrets`, with sorted keys.
unfoldable mutual
  unfolding is_secret_name place_field

  pub redact : Json → Json
  redact null = null
  redact (boolean b) = boolean b
  redact (integer z) = integer z
  redact (real z n) = real z n
  redact (str s) = str s
  redact (arr xs) = arr (redact_items xs)
  redact (obj d) = obj (redact_mapping d)

  pub redact_items : Items → Items
  redact_items nil = nil
  redact_items (cons x xs) = cons (redact x) (redact_items xs)

  pub redact_mapping : Fields → Fields
  redact_mapping end = end
  redact_mapping (field k v d) =
      if is_secret_name k then redact_mapping d else place_field k (redact v) (redact_mapping d)

-- What a table gives back: `AnalysisResult.from_dict` of the stored text of `to_dict`, in which the
-- key is set.
unfoldable pub read_back : Text → AnalysisResult → AnalysisResult
unfolding redact_mapping clean_warnings
read_back key r = record r {
  data_fields = redact_mapping r.data_fields;
  warnings = clean_warnings r.warnings;
  cache_key = key;
}

-- `NullAnalysisCache`; `FileAnalysisCache` and `SQLiteAnalysisCache`.
pub data Store : Type 0 where
  no_cache : Store
  table : Dict Text AnalysisResult → Store

-- `CompositeAnalysisCache`, of any number of caches.
abbrev pub Cache : Type 0
Cache = List Store

-- A result under another key is refused.
abbrev pub matching : Text → Option AnalysisResult → Option AnalysisResult
matching key none = none
matching key (some r) =
    if not (is_empty r.cache_key) && not (r.cache_key == key) then none else some r

unfoldable pub get_store : Text → Store → Option AnalysisResult
unfolding lookup
get_store key no_cache = none
get_store key (table d) = matching key (lookup key d)

unfoldable pub set_store : Text → AnalysisResult → Store → Store
unfolding insert read_back
set_store key r no_cache = no_cache
set_store key r (table d) = table (insert key (read_back key r) d)

-- `get`: the first cache that has the key.
unfoldable pub get_cache : Text → Cache → Option AnalysisResult
unfolding get_store
get_cache key [] = none
get_cache key (c ∷ cs) =
    let rest = get_cache key cs in elim (get_store key c) [ none ↦ rest | some r ↦ some r ]

-- `set`: every cache.
unfoldable pub set_cache : Text → AnalysisResult → Cache → Cache
unfolding set_store
set_cache key r [] = []
set_cache key r (c ∷ cs) = set_store key r c ∷ set_cache key r cs

-- `_as_cached`
unfoldable pub as_cached : AnalysisResult → AnalysisResult
unfolding clean_warnings status_value
as_cached r = record r {
  status = cached;
  warnings = clean_warnings r.warnings;
  cached_from = some (status_value r.status);
}
