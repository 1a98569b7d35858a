-- ===== src/Ai/Service/Laws.antt =====
-- When the service asks the model, and what it remembers.
use dingzhen_notebook.Common.{
  ℕ, ◌+◌, ◌≡◌, refl, Bool, true, false, Bool-cases, inl, inr, ◌⊎◌, any, [], txt, Option, none, some,
  Option-cases, Text, text_eq, is_empty, if◌then◌else◌,
}
use dingzhen_notebook.Common.Strings.{strip}
use dingzhen_notebook.Json.{Json, null, str, Fields, get_or, truthy}
use dingzhen_notebook.Ai.Payload.{
  safe_value, AnalysisKind, missing_official_fields, partition_payload,
}
use dingzhen_notebook.Ai.Protect.{normalise_content}
use dingzhen_notebook.Ai.Cache.{
  AnalysisResult, AnalysisStatus, completed, cached, needs_review, failed, status_value, Store,
  no_cache, table, Cache, read_back, redact_mapping, as_cached,
}
use dingzhen_notebook.Ai.Service.{
  Response, failure, answer, Service, analyze, analyze_parts, to_mapping_or_value, key_of,
  with_history, cached_result, call_model, conclude, review_result, make_result,
}

abbrev pub is_failed : AnalysisStatus → Bool
is_failed failed = true
is_failed completed = false
is_failed cached = false
is_failed needs_review = false

abbrev pub is_table : Store → Bool
is_table no_cache = false
is_table (table d) = true

abbrev safe_option : Option Json → Option Json
safe_option none = none
safe_option (some v) = some (safe_value v)

module _ (render : Json → Text) (parse : Text → Option Json) (digest : Json → Text)
    (cache_key : Text → Text → Text → Text → Text)
    (ask : AnalysisKind → Fields → Fields → Fields → Response) where
  -- The run of `analyze`, with its parameters.
  abbrev pub run :
      AnalysisKind
      → Json
      → Option Text
      → Option Json
      → Bool
      → Fields
      → ℕ
      → Service
      → AnalysisResult × Service
  run kind payload entity hist force metadata now s =
      analyze render parse digest cache_key ask kind payload entity hist force metadata now s

  abbrev pub payload_key : AnalysisKind → Json → Service → Text
  payload_key kind payload s =
      key_of render parse digest cache_key ask kind (to_mapping_or_value payload) s

  -- The official fields that a payload misses.
  abbrev pub is_whole : AnalysisKind → Json → Bool
  is_whole kind payload =
      let raw = to_mapping_or_value payload in
      is_empty (missing_official_fields render kind (partition_payload raw).0 raw)

  -- A question's payload without an official answer, or without an official explanation: the field
  -- is absent or empty, or the explanation is blank.
  abbrev pub LacksOfficial : Fields → Type 0
  LacksOfficial d =
      (truthy (get_or (txt "official_answer") null d) ≡ false)
      ⊎ ((truthy (get_or (txt "official_explanation_md") null d) ≡ false)
          × ((truthy (get_or (txt "official_explanation") null d) ≡ false)
              ⊎ ((blank : Text) × (get_or (txt "official_explanation") null d ≡ str blank)
                  × (strip blank ≡ []))))

  conclude-failed :
      (kind : AnalysisKind) (response : Response) (entity : Option Text) (raw : Json) (now : ℕ)
      (s : Service)
      → is_failed
          (conclude render parse digest cache_key ask kind response entity raw now s).0.status
        ≡ true
      → (conclude render parse digest cache_key ask kind response entity raw now s).1.cache
        ≡ s.cache
  unfolding conclude make_result
  conclude-failed kind (failure message) entity raw now s h = refl
  conclude-failed kind (answer content model usage) entity raw now s h =
      never (normalise_content render parse content).needs_review h
    where
      never : {A : Type 0} (b : Bool) → is_failed (if b then needs_review else completed) ≡ true → A
      never true e = cc
      never false e = cc

  call_model-failed :
      (kind : AnalysisKind) (official context metadata : Fields) (entity : Option Text) (raw : Json)
      (now : ℕ) (s : Service)
      → is_failed
          (call_model render parse digest cache_key ask kind official context metadata entity raw
            now s).0.status
        ≡ true
      → (call_model render parse digest cache_key ask kind official context metadata entity raw now
          s).1.cache
        ≡ s.cache
  unfolding call_model
  call_model-failed kind official context metadata entity raw now s h =
      conclude-failed kind _ entity raw now (record s { asked = s.asked + 1 }) h

  -- A failure of the model is not remembered: the cache stays as it was.
  pub analyze-failed :
      (kind : AnalysisKind) (payload : Json) (entity : Option Text) (hist : Option Json)
      (force : Bool) (metadata : Fields) (now : ℕ) (s : Service)
      → is_failed (run kind payload entity hist force metadata now s).0.status ≡ true
      → (run kind payload entity hist force metadata now s).1.cache ≡ s.cache
  unfolding analyze analyze_parts as_cached review_result make_result
  analyze-failed kind payload entity hist force metadata now s h =
      elim (Bool-cases (is_whole kind payload)) [
        | inl whole ↦
            elim (Option-cases (
              cached_result render parse digest cache_key ask force (payload_key kind payload s)
                s)) [
                  | inl missed ↦
                      let raw = to_mapping_or_value payload in
                      let parts = partition_payload raw in
                      rw (whole, missed)
                        (call_model-failed kind parts.0
                          (with_history render parse digest cache_key ask hist parts.1) metadata
                          entity raw now s (rw (whole, missed) at h))
                  | inr (r, hit) ↦ rw (whole, hit) refl
                ]
        | inr incomplete ↦
            elim (Option-cases (
              cached_result render parse digest cache_key ask force (payload_key kind payload s)
                s)) [
                  | inl missed ↦ cc (rw (incomplete, missed) at h)
                  | inr (r, hit) ↦ cc (rw (incomplete, hit) at h)
                ]
      ]

  -- A table among the caches.
  abbrev pub has_table : Cache → Bool
  has_table caches = any is_table caches

  -- What the caches give back for a key after a result is set.
  abbrev pub remembered : Text → AnalysisResult → Cache → Option AnalysisResult
  remembered key r caches = if has_table caches then some (read_back key r) else none

  -- A copy of a result that is marked as cached and says what it was.
  pub record IsCopy (r copy : AnalysisResult) : Type 0 where
    pub marked : copy.status ≡ cached
    pub origin : copy.cached_from ≡ some (status_value r.status)
    pub same_kind : copy.kind ≡ r.kind
    pub same_data : copy.data_fields ≡ redact_mapping r.data_fields
    pub same_entity : copy.entity_id ≡ r.entity_id
    pub same_model : copy.model ≡ r.model
    pub same_prompt : copy.prompt_version ≡ r.prompt_version
    pub same_input : copy.input_hash ≡ r.input_hash
    pub same_usage : copy.usage ≡ r.usage
    pub same_instant : copy.created_at ≡ r.created_at
