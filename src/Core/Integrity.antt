-- ===== src/Core/Integrity.antt =====
-- packages/core/integrity.py: the completeness checks of a question and the workflow transition;
-- and packages/parser/completeness.py, which applies it to what the OCR parser delivers.
pub mod Checks
pub mod Facts
pub mod Complete
pub mod Transition
use dingzhen_notebook.Common.{
  ℕ, Bool, true, false, not, ◌&&◌, ◌||◌, Option, none, some, List, [], ◌∷◌, ◌++◌, map, String,
  string_eq, Text, text_eq, ◌==◌, length, is_empty, ltb, nat_beq, if◌then◌else◌, all, any, elem,
  from_keys,
}
use dingzhen_notebook.Common.Dict.{lookup}
use dingzhen_notebook.Common.Strings.{strip}
use dingzhen_notebook.Core.Question.{
  Question, PipelineStatus, needs_review, verified, AttemptState, answered, unanswered, unknown,
  none_or_empty, is_none, blank_explanation, assign_status, assign_reasons, model_validate,
}

pub record IntegrityIssue : Type 0 where
  pub code : String
  pub message : String

pub record IntegrityReport : Type 0 where
  pub status : PipelineStatus
  pub issues : List IntegrityIssue

-- `IntegrityReport.complete`
unfoldable pub complete : IntegrityReport → Bool
complete r = is_empty r.issues

-- `set(xs).issubset(ys)`
unfoldable pub is_subset : List Text → List Text → Bool
unfolding all elem
is_subset xs ys = all (λ x. elem x ys) xs

-- `set(xs) == set(ys)`
unfoldable pub same_set : List Text → List Text → Bool
unfolding is_subset
same_set xs ys = is_subset xs ys && is_subset ys xs

abbrev pub labels : Question → List Text
labels q = map (λ o. o.label) q.options

-- `items or []`
abbrev pub or_nil {ℓ} : {A : Type ℓ} → Option (List A) → List A
or_nil none = []
or_nil (some xs) = xs

unfoldable pub duplicate_labels : Question → Bool
unfolding from_keys
duplicate_labels q = not (nat_beq (length (labels q)) (length (from_keys (labels q))))

unfoldable pub answer_not_in_options : Question → Bool
unfolding is_subset
answer_not_in_options q =
    not (none_or_empty q.official_answer)
    && (not (is_empty (labels q)) && not (is_subset (or_nil q.official_answer) (labels q)))

-- `expected_correct`
unfoldable pub expected_correct : Question → Option Bool
unfolding same_set
expected_correct q =
    if not (is_none q.user_answer) && not (none_or_empty q.official_answer)
    then some (same_set (or_nil q.user_answer) (or_nil q.official_answer))
    else none

-- Two optional Booleans that are both there and differ.
abbrev pub differ : Option Bool → Option Bool → Bool
differ (some true) (some false) = true
differ (some false) (some true) = true
differ _ _ = false

unfoldable pub result_conflict : Question → Bool
unfolding expected_correct
result_conflict q = differ q.is_correct (expected_correct q)

abbrev pub is_unanswered : AttemptState → Bool
is_unanswered unanswered = true
is_unanswered answered = false
is_unanswered unknown = false

unfoldable pub attempt_conflict : Question → Bool
attempt_conflict q = is_unanswered q.attempt_state && not (none_or_empty q.user_answer)

abbrev pub is_low : ℕ → Option ℕ → Bool
is_low threshold none = false
is_low threshold (some c) = ltb c threshold

-- `not evidence.field_regions.get(name)`
unfoldable pub no_regions : String → Question → Bool
unfolding lookup
no_regions name q = none_or_empty (lookup name q.evidence.field_regions)

unfoldable pub answer_without_evidence : Question → Bool
unfolding no_regions
answer_without_evidence q = not (none_or_empty q.official_answer) && no_regions "official_answer" q

unfoldable pub explanation_without_evidence : Question → Bool
unfolding no_regions
explanation_without_evidence q =
    not (none_or_empty q.official_explanation_md) && no_regions "official_explanation_md" q

unfoldable pub blank_stem : Question → Bool
unfolding strip
blank_stem q = is_empty (strip q.stem_md)

abbrev pub issue : String → String → IntegrityIssue
issue code message = record { code = code; message = message }

-- The tests of `assess_question` in their order, each with what it adds.
unfoldable pub checks : Question → ℕ → List (Bool × IntegrityIssue)
checks q threshold =
    (is_none q.user_answer, issue "missing_user_answer" "未采集用户答案（空列表可明确表示未作答）")
    ∷ (none_or_empty q.official_answer, issue "missing_official_answer" "缺少粉笔正确答案")
    ∷ (blank_explanation q, issue "missing_official_explanation" "缺少粉笔官方解析")
    ∷ (blank_stem q, issue "missing_stem" "缺少题干")
    ∷ (duplicate_labels q, issue "duplicate_option_labels" "选项标签重复")
    ∷ (answer_not_in_options q, issue "official_answer_not_in_options" "正确答案不在已识别选项中")
    ∷ (result_conflict q, issue "answer_result_conflict" "用户答案、正确答案与作答结果矛盾")
    ∷ (attempt_conflict q, issue "attempt_state_conflict" "未作答状态却存在用户答案")
    ∷ (is_low threshold q.ocr_confidence, issue "low_ocr_confidence" "OCR 置信度低")
    ∷ (is_low threshold q.parse_confidence, issue "low_parse_confidence" "字段解析置信度低")
    ∷ (is_empty q.evidence.question_frames, issue "missing_question_evidence" "缺少题目原始截图证据")
    ∷ (is_empty q.evidence.analysis_frames, issue "missing_analysis_evidence" "缺少答案解析原始截图证据")
    ∷ (answer_without_evidence q, issue "missing_official_answer_evidence" "官方答案未关联原始截图区域")
    ∷ (
      explanation_without_evidence q,
      issue "missing_official_explanation_evidence" "官方解析未关联原始截图区域",
    )
    ∷ []

-- The inner function `add`: a code is added once.
unfoldable pub add : List IntegrityIssue → IntegrityIssue → List IntegrityIssue
unfolding any
add issues new = if any (λ i. i.code == new.code) issues then issues else issues ++ new ∷ []

unfoldable pub run_checks : List IntegrityIssue → List (Bool × IntegrityIssue) → List IntegrityIssue
unfolding add
run_checks issues [] = issues
run_checks issues ((fails, new) ∷ rest) = run_checks (if fails then add issues new else issues) rest

-- The `confidence_threshold` that callers leave at 0.80.
abbrev pub default_threshold : ℕ
default_threshold = 800_000

unfoldable pub assess_question : Question → ℕ → IntegrityReport
unfolding run_checks checks
assess_question q threshold =
    let issues = run_checks [] (checks q threshold) in
    record { status = if is_empty issues then verified else needs_review; issues = issues }

abbrev pub codes : List IntegrityIssue → List String
codes issues = map (λ i. i.code) issues

-- The question is mutated, so it comes back beside the report.
unfoldable pub transition_question : Question → ℕ → Question × IntegrityReport
unfolding assess_question assign_status assign_reasons
transition_question q threshold =
    let report = assess_question q threshold in
    (assign_reasons (codes report.issues) (assign_status report.status q), report)

-- What the parser hands over: a `Question`, or a mapping that is still to be validated.
pub data Parsed : Type 0 where
  question mapping : Question → Parsed

unfoldable pub finalize_parsed_question : Parsed → ℕ → Option (Question × IntegrityReport)
unfolding transition_question model_validate
finalize_parsed_question (question q) threshold = some (transition_question q threshold)
finalize_parsed_question (mapping payload) threshold = elim (model_validate payload) [
  | none ↦ none
  | some q ↦ some (transition_question q threshold)
]
