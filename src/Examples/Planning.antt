-- ===== src/Examples/Planning.antt =====
-- The review plan, the metrics and the error tags on concrete inputs.
use dingzhen_notebook.Common.{txt, text_eq, [], ◌∷◌, ◌≡◌}
use dingzhen_notebook.Review.{build_review_plan}
use dingzhen_notebook.Review.Plan.{IsPartition, build_review_plan-IsPartition}
use dingzhen_notebook.Analysis.Tags.{normalized, get_error_tags, set_error_tags}
use dingzhen_notebook.Analysis.Tags.Laws.{get-set_error_tags}
use dingzhen_notebook.Examples.Samples.{sample, unofficial_sample}

build_review_plan-IsPartition_example :
    IsPartition 738_000
      (sample ∷ unofficial_sample ∷ [])
      (build_review_plan 738_000 (sample ∷ unofficial_sample ∷ []))
build_review_plan-IsPartition_example =
    build_review_plan-IsPartition 738_000 (sample ∷ unofficial_sample ∷ [])

get-set_error_tags_example :
    get_error_tags (λ j. txt "None") (set_error_tags sample (txt " slow " ∷ txt "SLOW" ∷ [])).0
    ≡ normalized (txt " slow " ∷ txt "SLOW" ∷ [])
get-set_error_tags_example =
    get-set_error_tags (λ j. txt "None") sample (txt " slow " ∷ txt "SLOW" ∷ [])
