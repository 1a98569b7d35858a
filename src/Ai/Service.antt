-- ===== src/Ai/Service.antt =====
-- `AIAnalysisService.analyze` (packages/ai/service.py) with its caches and cost tracker. Parameters
-- stand for what is behind the service: `ask` the adapter, on the prompt that is rendered from the
-- kind, the official fields, the context and the metadata; `digest` the SHA-256 of a payload's
-- canonical text; `cache_key` the SHA-256 of digest, model, prompt version and kind; `render` and
-- `parse` Python's `str()` and `json.loads`. Instants are arguments.
pub mod Laws
use dingzhen_notebook.Common.{
  ℕ, ◌+◌, Bool, true, false, not, ◌||◌, Option, none, some, List, [], ◌∷◌, ◌++◌, map, Text, text_eq,
  txt, if◌then◌else◌, is_empty, select, from_keys, is_some,
}
use dingzhen_notebook.Common.Strings.{strip}
use dingzhen_notebook.Common.Int.{pos}
use dingzhen_notebook.Json.{
  Json, null, boolean, integer, real, str, arr, obj, Items, Fields, end, field, from_list, get_or,
  get_field, set_field, text_of,
}
use dingzhen_notebook.Core.Question.{Question}
use dingzhen_notebook.Ai.Protect.{Content, normalise_content}
use dingzhen_notebook.Ai.Stats.{AiUsage, ai_usage, CostTracker, record_usage}
use dingzhen_notebook.Ai.Cache.{
  AnalysisStatus, completed, cached, needs_review, failed, status_value, kind_value, AnalysisResult,
  clean_warnings, Cache, get_cache, set_cache, as_cached,
}
use dingzhen_notebook.Ai.Payload.{
  AnalysisKind, question_error, paper, history, learning_strategy, review_plan, Missing,
  missing_answer, missing_explanation, questions_missing, missing_official_fields,
  partition_payload, safe_value, safe_mapping,
}

-- What an adapter does: `failure` is the exception.
pub data Response : Type 0 where
  failure : Text → Response
  answer : Json → Option Text → AiUsage → Response

-- `asked` counts the calls of the adapter.
pub record Service : Type 0 where
  pub model : Text
  pub prompt_version : Text
  pub cache : Cache
  pub cost_tracker : CostTracker
  pub asked : ℕ

-- `_to_mapping_or_value`
unfoldable pub to_mapping_or_value : Json → Json
unfolding safe_value txt
to_mapping_or_value (obj d) = obj d
to_mapping_or_value (arr xs) = arr xs
to_mapping_or_value v = obj (field (txt "value") (safe_value v) end)

-- `dict.update`
unfoldable pub update : Fields → Fields → Fields
unfolding set_field
update d end = d
update d (field k v more) = update (set_field k v d) more

-- `model or self.model`
abbrev pub model_or : Text → Text → Text
model_or [] default = default
model_or (c ∷ s) default = c ∷ s

abbrev pub optional_model : Option Text → Text
optional_model none = []
optional_model (some s) = s

abbrev pub text_json : Option Text → Json
text_json none = null
text_json (some s) = str s

-- A text that is there and not empty, or another.
abbrev pub text_or : Option Text → Option Text → Option Text
text_or none other = other
text_or (some s) other = if is_empty s then other else some s

module _ (render : Json → Text) (parse : Text → Option Json) (digest : Json → Text)
    (cache_key : Text → Text → Text → Text → Text)
    (ask : AnalysisKind → Fields → Fields → Fields → Response) where
  abbrev pub id_text : Json → Option Text → Option Text
  id_text null other = other
  id_text v other = some (text_of render v)

  -- `_entity_id`
  unfoldable pub entity_id : Json → Option Text
  unfolding get_or txt
  entity_id (obj d) =
      id_text (get_or (txt "id") null d) (
        id_text (get_or (txt "paper_id") null d) (id_text (get_or (txt "question_id") null d) none))
  entity_id v = none

  abbrev pub missing_name : Missing → Text
  missing_name missing_answer = txt "official_answer"
  missing_name missing_explanation = txt "official_explanation"
  missing_name (questions_missing n) =
      txt "questions_missing_official_fields:" ++ render (integer (pos n))

  abbrev pub missing_warning : Missing → Text
  missing_warning missing_answer = txt "missing_official_answer"
  missing_warning missing_explanation = txt "missing_official_explanation"
  missing_warning (questions_missing n) =
      txt "questions_missing_official_fields:" ++ render (integer (pos n))

  abbrev pub key_of : AnalysisKind → Json → Service → Text
  key_of kind raw s = cache_key (digest raw) s.model s.prompt_version (kind_value kind)

  -- A result as the service makes it.
  unfoldable pub make_result :
      AnalysisKind
      → Fields
      → AnalysisStatus
      → List Text
      → Option Text
      → Text
      → AiUsage
      → Json
      → ℕ
      → Service
      → AnalysisResult
  unfolding clean_warnings
  make_result kind fields status warnings entity model usage raw now s = record {
    kind = kind;
    data_fields = fields;
    status = status;
    warnings = clean_warnings warnings;
    entity_id = text_or entity (entity_id raw);
    model = model;
    prompt_version = s.prompt_version;
    input_hash = digest raw;
    cache_key = key_of kind raw s;
    usage = usage;
    created_at = now;
    cached_from = none;
  }

  abbrev pub store : Text → AnalysisResult → Service → Service
  store key r s = record s { cache = set_cache key r s.cache }

  -- The answer without a model when official fields are missing.
  unfoldable pub review_result :
      AnalysisKind → List Missing → Option Text → Json → ℕ → Service → AnalysisResult
  unfolding make_result ai_usage from_list txt
  review_result kind missing entity raw now s =
      make_result kind
        (field (txt "needs_review") (boolean true) (
          field (txt "missing_official_fields")
            (arr (from_list (map (λ m. str (missing_name m)) missing)))
            (field (txt "controversy_note") (str (txt "官方字段不完整，未调用 AI 推断答案或解析。")) end)))
        needs_review
        (txt "NEEDS_REVIEW" ∷ map missing_warning missing ++ txt "AI 不得猜测缺失的粉笔官方字段" ∷ []) entity
        s.model (ai_usage 0 0 0 0 none) raw now s

  abbrev pub with_history : Option Json → Fields → Fields
  with_history none context = context
  with_history (some h) context = set_field (txt "history") (safe_value h) context

  -- What becomes of the adapter's response: a failure is not cached.
  unfoldable pub conclude :
      AnalysisKind → Response → Option Text → Json → ℕ → Service → AnalysisResult × Service
  unfolding make_result ai_usage normalise_content record_usage txt set_cache
  conclude kind (failure message) entity raw now s = (
    make_result kind (field (txt "error") (str message) end) failed
        (txt "AI_ADAPTER_ERROR" ∷ message ∷ []) entity s.model (ai_usage 0 0 0 0 none) raw now s,
    s,
  )
  conclude kind (answer content model usage) entity raw now s =
      let name = model_or (optional_model model) s.model in
      let normalised = normalise_content render parse content in
      let recorded = record_usage name usage false s.cost_tracker in
      let result =
        make_result kind normalised.data_fields
          (if normalised.needs_review then needs_review else completed) normalised.warnings entity
          name recorded.0 raw now s in
      (result, store (key_of kind raw s) result (record s { cost_tracker = recorded.1 }))

  -- The call itself, on the payload's parts.
  unfoldable pub call_model :
      AnalysisKind
      → Fields
      → Fields
      → Fields
      → Option Text
      → Json
      → ℕ
      → Service
      → AnalysisResult × Service
  unfolding conclude update safe_mapping txt
  call_model kind official context metadata entity raw now s =
      let call_metadata =
        update
          (field (txt "analysis_kind") (str (kind_value kind))
            (field (txt "entity_id") (text_json (text_or entity (entity_id raw))) end))
          (safe_mapping metadata) in
      conclude kind (ask kind official context call_metadata) entity raw now
        (record s { asked = s.asked + 1 })

  -- A cached result, unless `force` asks for a new one.
  unfoldable pub cached_result : Bool → Text → Service → Option AnalysisResult
  unfolding get_cache
  cached_result force key s = if force then none else get_cache key s.cache

  unfoldable pub analyze_parts :
      AnalysisKind
      → Json
      → Option Text
      → Option Json
      → Bool
      → Fields
      → ℕ
      → Service
      → AnalysisResult × Service
  unfolding partition_payload missing_official_fields review_result cached_result as_cached
      call_model record_usage set_cache
  analyze_parts kind raw entity hist force metadata now s =
      let parts = partition_payload raw in
      let missing = missing_official_fields render kind parts.0 raw in
      let key = key_of kind raw s in
      if is_empty missing
      then elim (cached_result force key s) [
        | some r ↦ (
          as_cached r,
          record s {
            cost_tracker = (record_usage (model_or r.model s.model) r.usage true s.cost_tracker).1;
          },
        )
        | none ↦ call_model kind parts.0 (with_history hist parts.1) metadata entity raw now s
      ]
      else elim (cached_result force key s) [
        | some r ↦ (as_cached r, s)
        | none ↦
            let result = review_result kind missing entity raw now s in (result, store key result s)
      ]

  unfoldable pub analyze :
      AnalysisKind
      → Json
      → Option Text
      → Option Json
      → Bool
      → Fields
      → ℕ
      → Service
      → AnalysisResult × Service
  unfolding analyze_parts to_mapping_or_value
  analyze kind payload entity hist force metadata now s =
      analyze_parts kind (to_mapping_or_value payload) entity hist force metadata now s

-- `attach_to_question`; `none` is the `ValueError`.
unfoldable pub attach_to_question : Question → AnalysisResult → Option Question
attach_to_question q r = elim r.kind [
  | question_error ↦ some (record q { ai_analysis = some r.data_fields })
  | _ ↦ none
]
