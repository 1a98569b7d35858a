-- ===== src/MistakePackage/Import.antt =====
-- `questions_from_package` (packages/mistake_package/codec.py): the questions of a package that
-- passes validation. `render` is Python's `str()`; the id for a paper without one, and the
-- instant, are arguments.
use dingzhen_notebook.Common.{
  ℕ, suc, Bool, true, false, not, ◌&&◌, Option, none, some, List, [], ◌∷◌, ◌++◌, map, Text, text_eq,
  ◌==◌, txt, if◌then◌else◌, is_empty, select, length, count, is_some,
}
use dingzhen_notebook.Common.Decimal.{decimal}
use dingzhen_notebook.Common.Dict.{Dict, insert, lookup}
use dingzhen_notebook.Common.Sort.{sort, text_order}
use dingzhen_notebook.Common.Strings.{strip, tidy}
use dingzhen_notebook.Json.{Json, null, arr, obj, Fields, end, to_list, get_or, text_of}
use dingzhen_notebook.Core.Question.{
  Question, Paper, QuestionOption, QuestionType, single_choice, multiple_choice, true_false, other,
  AttemptState, answered, unknown, parsed, model_validate,
}
use dingzhen_notebook.MistakePackage.{
  PackageError, get_truthy, iterate, text_at, validate_package, empty_arr,
}
use dingzhen_notebook.MistakePackage.Answers.{parse_answers}

-- A `ValueError` with the messages, another exception, or what was imported.
pub data Imported : Type 0 where
  invalid : List PackageError → Imported
  crashed : Imported
  imported : Paper → List Question → Imported

-- `value or None` of a list
abbrev pub or_none : List Text → Option (List Text)
or_none [] = none
or_none (x ∷ xs) = some (x ∷ xs)

abbrev pub text_or_none : Text → Option Text
text_or_none [] = none
text_or_none (c ∷ s) = some (c ∷ s)

unfoldable pub same_texts : List Text → List Text → Bool
same_texts [] [] = true
same_texts (x ∷ xs) (y ∷ ys) = x == y && same_texts xs ys
same_texts _ _ = false

-- Whether an answer is right, if both answers are there.
unfoldable pub graded : Option (List Text) → Option (List Text) → Option Bool
unfolding same_texts sort
graded (some user) (some official) =
    some (same_texts (sort text_order user) (sort text_order official))
graded _ _ = none

abbrev pub attempt_of : Option (List Text) → AttemptState
attempt_of none = unknown
attempt_of (some answers) = answered

abbrev pub as_fields : Json → Fields
as_fields (obj d) = d
as_fields _ = end

abbrev pub type_of : Text → QuestionType
type_of itype =
    if itype == txt "multiple"
    then multiple_choice
    else if itype == txt "judge"
    then true_false
    else single_choice

-- The list of a field that validation has seen.
abbrev pub items_at : Text → Fields → List Json
items_at key d = elim (get_truthy key empty_arr d) [ arr xs ↦ to_list xs | _ ↦ [] ]

-- What an interaction gives.
pub record Interaction : Type 0 where
  pub question_type : QuestionType
  pub options : List QuestionOption
  pub official : Option (List Text)
  pub explanation : Option Text

-- A mistake without an interaction.
unfoldable pub plain_content : Text → Interaction
unfolding parse_answers
plain_content text = record {
  question_type = other;
  options = [];
  official = or_none (parse_answers text);
  explanation = text_or_none text;
}

module _ (render : Json → Text) where
  abbrev pub or_key : Text → Text
  or_key [] = txt "?"
  or_key (c ∷ s) = c ∷ s

  -- `str(option.get("key") or option.get("label") or "").strip().upper() or "?"`
  unfoldable pub option_of : Fields → QuestionOption
  unfolding text_at tidy txt
  option_of d = record {
    label = or_key (tidy (text_at render (txt "key") (text_at render (txt "label") [] d) d));
    content_md = text_at render (txt "text") [] d;
  }

  unfoldable pub options_of : List Json → List QuestionOption
  unfolding option_of
  options_of [] = []
  options_of (obj d ∷ xs) = option_of d ∷ options_of xs
  options_of (_ ∷ xs) = options_of xs

  -- `none` is the `TypeError` of options that are no list.
  unfoldable pub interaction_of : Fields → Option Text → Option Interaction
  unfolding text_at get_truthy iterate options_of parse_answers strip txt
  interaction_of d explanation =
      let analysis = strip (text_at render (txt "analysis") [] d) in
      elim (iterate (get_truthy (txt "options") empty_arr d)) [
        | none ↦ none
        | some options ↦ some (record {
          question_type = type_of (text_at render (txt "type") (txt "single") d);
          options = options_of options;
          official = some (parse_answers (text_at render (txt "answer") [] d));
          explanation = if is_empty analysis then explanation else some analysis;
        })
      ]

  -- The part of a mistake that depends on its kind.
  unfoldable pub content_of : Fields → Option Interaction
  unfolding text_at get_truthy get_or interaction_of plain_content txt
  content_of mistake =
      let answer = as_fields (get_truthy (txt "standard_answer") (obj end) mistake) in
      let text = text_at render (txt "text") [] answer in
      if text_at render (txt "kind") (txt "legacy") mistake == txt "interactive"
      then (elim (get_or (txt "interaction") null mistake) [
        | obj d ↦ interaction_of d (text_or_none text)
        | _ ↦ some (plain_content text)
      ])
      else some (plain_content text)

  -- `[str(x) for x in ... if str(x).strip()]`
  unfoldable pub points_of : Json → Option (List Text)
  unfolding iterate select strip
  points_of v = elim (iterate v) [
    | none ↦ none
    | some xs ↦ some (select (λ s. not (is_empty (strip s))) (map (text_of render) xs))
  ]

  -- `{str(item.get("id")): item ...}`, to the folders' names
  unfoldable pub folders_of : List Json → Dict Text Text → Dict Text Text
  unfolding insert get_or txt
  folders_of [] d = d
  folders_of (obj folder ∷ folders) d = folders_of folders (
      insert (text_of render (get_or (txt "id") null folder))
        (text_of render (get_or (txt "name") null folder)) d)
  folders_of (_ ∷ folders) d = folders_of folders d

  -- The arguments of `Question(...)` for one mistake.
  unfoldable pub raw_question :
      Text → Dict Text Text → ℕ → Fields → Interaction → List Text → Question
  unfolding text_at get_truthy parse_answers graded lookup to_list decimal txt
  raw_question pid folders sequence mistake content points =
      let block = as_fields (get_truthy (txt "question") (obj end) mistake) in
      let user = or_none (
        parse_answers (
          text_at render (txt "text") []
            (as_fields (get_truthy (txt "user_solution") (obj end) mistake)))) in
      record {
        id = text_at render (txt "id") (txt "import_" ++ decimal sequence) mistake;
        paper_id = pid;
        sequence = sequence;
        section = lookup (text_at render (txt "folder_id") [] mistake) folders;
        subsection = none;
        question_type = content.question_type;
        stem_md = text_at render (txt "text") [] block;
        options = content.options;
        media =
            map (λ path. record { type = txt "image"; path = text_of render path })
              (items_at (txt "images") block);
        user_answer = user;
        official_answer = content.official;
        is_correct = graded user content.official;
        attempt_state = attempt_of user;
        duration_seconds = none;
        official_explanation_md = content.explanation;
        official_knowledge_points = points;
        source = some (txt "jinzhi-mistake-package");
        ocr_confidence = none;
        parse_confidence = none;
        verification_status = parsed;
        review_reasons = [];
        evidence = record { question_frames = []; analysis_frames = []; field_regions = [] };
        ai_analysis = none;
      }

  -- One mistake; `none` is an exception.
  unfoldable pub import_mistake : Text → Dict Text Text → ℕ → Fields → Option Question
  unfolding content_of points_of raw_question model_validate get_truthy txt
  import_mistake pid folders sequence mistake = elim (content_of mistake) [
    | none ↦ none
    | some content ↦ elim (points_of (get_truthy (txt "knowledge_points") empty_arr mistake)) [
      | none ↦ none
      | some points ↦ model_validate (raw_question pid folders sequence mistake content points)
    ]
  ]

  unfoldable pub import_mistakes : Text → Dict Text Text → ℕ → List Json → Option (List Question)
  unfolding import_mistake
  import_mistakes pid folders sequence [] = some []
  import_mistakes pid folders sequence (obj mistake ∷ mistakes) =
      elim (import_mistake pid folders sequence mistake) [
        | none ↦ none
        | some q ↦ elim (import_mistakes pid folders (suc sequence) mistakes) [
          | none ↦ none
          | some qs ↦ some (q ∷ qs)
        ]
      ]
  import_mistakes pid folders sequence (_ ∷ mistakes) =
      import_mistakes pid folders (suc sequence) mistakes

  unfoldable pub imported_paper : Text → Text → ℕ → List Question → Paper
  unfolding count txt
  imported_paper pid title now qs = record {
    id = pid;
    title = title;
    platform = txt "jinzhi-import";
    exam_category = none;
    subject = none;
    started_at = none;
    completed_at = none;
    total_questions = length qs;
    answered_questions = count (λ q. is_some q.user_answer) qs;
    correct_questions = count (λ q. elim q.is_correct [ some true ↦ true | _ ↦ false ]) qs;
    score = none;
    capture_status = parsed;
    created_at = now;
    updated_at = now;
  }

  unfoldable pub import_valid : Text → Text → ℕ → Fields → Imported
  unfolding import_mistakes folders_of imported_paper get_truthy to_list txt
  import_valid pid title now document =
      elim (import_mistakes pid (folders_of (items_at (txt "folders") document) []) 1
        (items_at (txt "mistakes") document)) [
          | none ↦ crashed
          | some qs ↦ imported (imported_paper pid title now qs) qs
        ]

  -- `paper_id or f"pkg_..."`, with the new id as an argument
  abbrev pub given_or : Option Text → Text → Text
  given_or none default = default
  given_or (some s) default = if is_empty s then default else s

  -- `questions_from_package`
  unfoldable pub questions_from_package : Option Text → Option Text → Text → ℕ → Fields → Imported
  unfolding validate_package import_valid text_at txt
  questions_from_package paper_id paper_title new_id now document =
      elim (validate_package render document) [
        | none ↦ crashed
        | some (e ∷ errors) ↦ invalid (e ∷ errors)
        | some [] ↦
            import_valid (given_or paper_id new_id)
              (given_or paper_title (text_at render (txt "title") (txt "导入错题包") document)) now
              document
      ]
