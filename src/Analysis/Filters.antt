-- ===== src/Analysis/Filters.antt =====
-- The filters and the risk score (packages/analysis/analyzer.py). A risk score is in hundredths;
-- the source adds the same summands as floats. `render` is Python's `str()` of a JSON value that
-- is no string.
pub mod Laws
use dingzhen_notebook.Common.{
  ℕ, zero, suc, ◌+◌, ◌-◌, min, Bool, true, false, not, ◌&&◌, ◌||◌, Option, none, some, List, [],
  ◌∷◌, ◌++◌, map, String, string_eq, Text, text_eq, ◌==◌, txt, leb, ltb, if◌then◌else◌, is_empty,
  select, any, all, elem, length, from_keys, count,
}
use dingzhen_notebook.Common.Dict.{Dict, insert}
use dingzhen_notebook.Common.Groups.{group_from, get_list}
use dingzhen_notebook.Common.Strings.{strip, lower, is_space, tidy}
use dingzhen_notebook.Common.Sort.{
  sort, by, number_first, numbered_order, labelled_order, text_order,
}
use dingzhen_notebook.Json.{
  Json, null, boolean, integer, real, str, arr, obj, nil, Items, Fields, field, end, get_or,
  get_field, to_list, truthy,
}
use dingzhen_notebook.Core.Question.{
  Question, QuestionOption, PipelineStatus, raw_captured, preprocessed, ocr_done, parsed,
  completeness_checked, needs_review, verified, exported, QuestionType, single_choice,
  multiple_choice, true_false, other,
}
use dingzhen_notebook.Core.Repository.{same_status}
use dingzhen_notebook.Review.{counted, or_else}
use dingzhen_notebook.Analysis.Metric.{answerable, is_wrong}
use dingzhen_notebook.Analysis.Tags.{fields_of, get_error_tags, tidied}

-- `re.sub(r"\s+", " ", s)`: `in_run` says that the character before was white space.
unfoldable pub squeeze : Bool → Text → Text
unfolding is_space
squeeze in_run [] = []
squeeze in_run (c ∷ s) =
    let after_space = squeeze true s in
    let after_other = squeeze false s in
    if is_space c then (if in_run then after_space else 32 ∷ after_space) else c ∷ after_other

-- `re.sub(r"\s+", " ", s.strip().lower())`
unfoldable pub plain : Text → Text
unfolding squeeze strip lower
plain s = squeeze false (lower (strip s))

-- `separator.join(parts)`
unfoldable pub join : Text → List Text → Text
join separator [] = []
join separator (s ∷ []) = s
join separator (s ∷ t ∷ ts) = s ++ separator ++ join separator (t ∷ ts)

unfoldable pub question_key : Question → Text
unfolding plain join txt
question_key q =
    let stem = plain q.stem_md in
    let options = join (txt "|") (map (λ o. o.label ++ txt ":" ++ plain o.content_md) q.options) in
    if not (is_empty stem) || not (is_empty options) then stem ++ 10 ∷ options else q.id

unfoldable pub is_verified : Question → Bool
is_verified q = elim q.verification_status [ verified ↦ true | exported ↦ true | _ ↦ false ]

unfoldable pub filter_wrong_questions : Bool → List Question → List Question
unfolding sort select is_verified
filter_wrong_questions verified_only questions =
    let wrong = select (λ q. is_wrong q.is_correct) questions in
    sort (by (λ q. (q.sequence, q.id)) numbered_order)
      (if verified_only then select is_verified wrong else wrong)

-- `isinstance(item, dict) and item.get("is_correct") is False`
abbrev pub is_false : Json → Bool
is_false (boolean b) = not b
is_false _ = false

unfoldable pub wrong_attempt : Json → Bool
unfolding get_or txt
wrong_attempt (obj d) = is_false (get_or (txt "is_correct") null d)
wrong_attempt _ = false

abbrev pub wrong_attempts : Json → ℕ
wrong_attempts (arr xs) = count wrong_attempt (to_list xs)
wrong_attempts _ = 0

-- `_history_wrong_count` of the analysis, which also counts a recorded history.
unfoldable pub history_wrong_count : Question → ℕ
unfolding counted get_or txt wrong_attempt
history_wrong_count q =
    let d = fields_of q in
    or_else (counted (txt "wrong_attempts") d) (
      or_else (counted (txt "wrong_count") d) (
        or_else (counted (txt "repeat_count") d)
          (wrong_attempts (get_or (txt "attempt_history") (get_or (txt "history") (arr nil) d) d))))

-- `bool((question.ai_analysis or {}).get("repeat_wrong"))`
unfoldable pub marked_repeated : Question → Bool
unfolding get_or truthy txt
marked_repeated q = truthy (get_or (txt "repeat_wrong") null (fields_of q))

-- The wrong questions by their key.
unfoldable pub wrong_groups : List Question → Dict Text (List Question)
unfolding group_from select question_key
wrong_groups questions =
    group_from question_key (λ q. q) [] (select (λ q. is_wrong q.is_correct) questions)

unfoldable pub is_repeated : List Question → Question → Bool
unfolding wrong_groups get_list question_key history_wrong_count marked_repeated
is_repeated questions q =
    is_wrong q.is_correct
    && (ltb 1 (length (get_list (question_key q) (wrong_groups questions)))
        || ltb 1 (history_wrong_count q)
        || marked_repeated q)

-- `{question.id: question for question in questions}`
unfoldable pub index_by_id : Dict Text Question → List Question → Dict Text Question
unfolding insert
index_by_id d [] = d
index_by_id d (q ∷ qs) = index_by_id (insert q.id q d) qs

abbrev pub entries {ℓ κ} : {K : Type ℓ} {V : Type κ} → Dict K V → List V
entries [] = []
entries ((k, v) ∷ d) = v ∷ entries d

-- Sorted by paper, sequence and identifier: a stable sort by the first two of one by the last.
unfoldable pub filter_repeated_wrong_questions : List Question → List Question
unfolding sort select is_repeated index_by_id
filter_repeated_wrong_questions questions =
    sort (by (λ q. (q.paper_id, q.sequence)) labelled_order) (
      sort (by (λ q. q.id) text_order)
        (entries (index_by_id [] (select (is_repeated questions) questions))))

-- `min(confidence) < 0.8` of the confidences that are there, if any
abbrev pub is_unsure : Option ℕ → Bool
is_unsure none = false
is_unsure (some c) = ltb c 800_000

abbrev pub when : Bool → ℕ → ℕ
when b n = if b then n else 0

abbrev pub is_unknown : Option Bool → Bool
is_unknown none = true
is_unknown (some b) = false

unfoldable pub risk_score : Question → ℕ
unfolding same_status history_wrong_count marked_repeated
risk_score q = min 100 (
    when (is_wrong q.is_correct) 55
    + when (is_unknown q.is_correct || not (answerable q)) 20
    + when (same_status q.verification_status needs_review) 30
    + when (is_unsure q.ocr_confidence || is_unsure q.parse_confidence) 15
    + when (ltb 1 (history_wrong_count q) || marked_repeated q) 20)

unfoldable pub filter_risk_questions : ℕ → Bool → List Question → List Question
unfolding sort select is_verified risk_score
filter_risk_questions threshold verified_only questions =
    let risky = select (λ q. leb threshold (risk_score q)) questions in
    sort (by (λ q. (100 - risk_score q, (q.sequence, q.id))) (number_first numbered_order))
      (if verified_only then select is_verified risky else risky)

unfoldable pub type_value : QuestionType → Text
unfolding txt
type_value single_choice = txt "single_choice"
type_value multiple_choice = txt "multiple_choice"
type_value true_false = txt "true_false"
type_value other = txt "other"

-- `xs.intersection(ys)` is not empty.
unfoldable pub meets : List Text → List Text → Bool
unfolding any elem
meets xs ys = any (λ x. elem x ys) xs

-- An option of a filter that is absent or empty asks for nothing.
abbrev pub asks : Option Text → (Text → Bool) → Bool
asks none test = true
asks (some s) test = is_empty s || test s

abbrev pub text_or_empty : Option Text → Text
text_or_empty none = []
text_or_empty (some s) = s

module _ (render : Json → Text) where
  -- Whether a question passes the four filters.
  unfoldable pub is_special : List Text → Option Text → List Text → Option Text → Question → Bool
  unfolding meets type_value get_error_tags
  is_special points section wanted question_type q =
      asks section (λ s. text_or_empty q.section == s)
      && asks question_type (λ t. type_value q.question_type == t)
      && (is_empty points || meets points q.official_knowledge_points)
      && (is_empty wanted || meets wanted (get_error_tags render q))

  unfoldable pub filter_special_questions :
      List Text → Option Text → List Text → Option Text → List Question → List Question
  unfolding sort select is_special strip tidied
  filter_special_questions knowledge_points section tags question_type questions =
      let points = map (λ s. strip s) (select (λ s. not (is_empty (strip s))) knowledge_points) in
      sort (by (λ q. (q.sequence, q.id)) numbered_order)
        (select (is_special points section (tidied tags) question_type) questions)
