-- ===== src/Examples/Services.antt =====
-- The service with a model that answers, one that fails, and a payload that lacks an answer.
use dingzhen_notebook.Common.{
  ◌≡◌, refl, true, Option, none, [], ◌∷◌, ◌++◌, Text, txt, text_beq, text_eq,
}
use dingzhen_notebook.Common.Strings.{strip}
use dingzhen_notebook.Json.{Json, str, obj, Fields, end, field}
use dingzhen_notebook.Ai.Stats.{ai_usage}
use dingzhen_notebook.Ai.Payload.{
  AnalysisKind, question_error, partition_payload, missing_official_fields,
}
use dingzhen_notebook.Ai.Cache.{no_cache, table}
use dingzhen_notebook.Ai.Service.{Service, Response, failure, answer, analyze, call_model, conclude}
use dingzhen_notebook.Ai.Service.Laws.{run, is_failed, analyze-failed}

abbrev render : Json → Text
render j = txt "None"

abbrev parse : Text → Option Json
parse s = none

abbrev digest : Json → Text
digest j = txt "digest"

abbrev cache_key : Text → Text → Text → Text → Text
cache_key input model version kind = input ++ model ++ version ++ kind

abbrev answers : AnalysisKind → Fields → Fields → Fields → Response
answers kind official context metadata =
    answer (obj (field (txt "summary") (str (txt "ok")) end)) none (ai_usage 3 4 0 0 none)

abbrev fails : AnalysisKind → Fields → Fields → Fields → Response
fails kind official context metadata = failure (txt "offline")

abbrev service : Service
service = record {
  model = txt "m";
  prompt_version = txt "p5";
  cache = no_cache ∷ table [] ∷ [];
  cost_tracker = record { pricing = []; default_pricing = (0, 0); by_model = [] };
  asked = 0;
}

abbrev whole_payload : Json
whole_payload = obj (
    field (txt "official_answer") (str (txt "B"))
      (field (txt "official_explanation_md") (str (txt "count")) end))

abbrev bare_payload : Json
bare_payload = obj (field (txt "stem_md") (str (txt "1 + 1")) end)

offline :
    is_failed
      (run render parse digest cache_key fails question_error whole_payload none none true end 1
        service).0.status
    ≡ true
unfolding analyze partition_payload missing_official_fields txt text_beq strip call_model conclude
offline = refl

analyze-failed_example :
    (run render parse digest cache_key fails question_error whole_payload none none true end 1
      service).1.cache
    ≡ no_cache ∷ table [] ∷ []
analyze-failed_example =
    analyze-failed render parse digest cache_key fails question_error whole_payload none none true
      end 1 service offline
