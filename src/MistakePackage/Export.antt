-- ===== src/MistakePackage/Export.antt =====
-- `package_from_questions` (packages/mistake_package/codec.py): the document of a paper's
-- questions. `file_name` is `Path(path).name`, and `now` the text of `_now_iso()`.
use dingzhen_notebook.Common.{
  Bool, true, false, not, Option, none, some, List, [], ◌∷◌, ◌++◌, map, Text, text_eq, ◌==◌, txt,
  if◌then◌else◌, is_empty, elem, take, select,
}
use dingzhen_notebook.Common.Int.{pos}
use dingzhen_notebook.Json.{
  Json, null, boolean, integer, str, arr, obj, nil, Fields, end, field, from_list,
}
use dingzhen_notebook.Core.Question.{
  Question, Paper, QuestionOption, MediaItem, QuestionType, multiple_choice, true_false,
  PipelineStatus, raw_captured, preprocessed, ocr_done, parsed, completeness_checked, needs_review,
  verified, exported, text_or_empty,
}
use dingzhen_notebook.MistakePackage.{package_format}
use dingzhen_notebook.MistakePackage.Answers.{answer_text}

abbrev pub pipeline_value : PipelineStatus → Text
pipeline_value raw_captured = txt "raw_captured"
pipeline_value preprocessed = txt "preprocessed"
pipeline_value ocr_done = txt "ocr_done"
pipeline_value parsed = txt "parsed"
pipeline_value completeness_checked = txt "completeness_checked"
pipeline_value needs_review = txt "needs_review"
pipeline_value verified = txt "verified"
pipeline_value exported = txt "exported"

abbrev pub texts : List Text → Json
texts xs = arr (from_list (map (λ s. str s) xs))

-- `_content_block`, without audio
unfoldable pub content_block : Text → List Text → Json
unfolding txt from_list
content_block text images = obj (
    field (txt "text") (str text)
      (field (txt "images") (texts images) (field (txt "audio") (arr nil) end)))

abbrev pub itype_of : QuestionType → Text
itype_of multiple_choice = txt "multiple"
itype_of true_false = txt "judge"
itype_of _ = txt "single"

-- `question.official_answer or []`
abbrev pub answers_or_empty : Option (List Text) → List Text
answers_or_empty none = []
answers_or_empty (some answers) = answers

unfoldable pub option_json : List Text → QuestionOption → Json
unfolding txt elem
option_json official o = obj (
    field (txt "key") (str o.label) (
      field (txt "text") (str o.content_md)
        (field (txt "is_correct") (boolean (elem o.label official)) end)))

unfoldable pub interaction_json : Question → Fields
unfolding txt option_json answer_text from_list
interaction_json q = field (txt "type") (str (itype_of q.question_type)) (
    field (txt "options")
      (arr (from_list (map (option_json (answers_or_empty q.official_answer)) q.options)))
      (field (txt "answer") (str (answer_text q.official_answer)) (
        field (txt "analysis") (str (text_or_empty q.official_explanation_md))
          (field (txt "passage") null end))))

abbrev pub is_correct_json : Option Bool → Json
is_correct_json none = null
is_correct_json (some b) = boolean b

-- `only_wrong and question.is_correct is True`
abbrev pub left_out : Bool → Option Bool → Bool
left_out true (some true) = true
left_out _ _ = false

-- `a or b` of texts
abbrev pub first_text : Text → Text → Text
first_text [] b = b
first_text (c ∷ s) b = c ∷ s

-- The questions that are exported.
unfoldable pub exported_questions : Bool → List Question → List Question
unfolding select
exported_questions only_wrong questions =
    select (λ q. not (left_out only_wrong q.is_correct)) questions

module _ (file_name : Text → Text) (now : Text) where
  abbrev pub media_path : Text → Text
  media_path path = txt "media/" ++ file_name path

  abbrev pub is_image : MediaItem → Bool
  is_image m = m.type == txt "image"

  -- The images of a question: its media, or else its first frames.
  unfoldable pub question_images : Question → List Text
  unfolding txt select elem
  question_images q =
      let own = map (λ m. media_path m.path) (select is_image q.media) in
      if is_empty own then map media_path (take 4 q.evidence.question_frames) else own

  unfoldable pub analysis_images : Question → List Text
  unfolding txt
  analysis_images q = map media_path (take 4 q.evidence.analysis_frames)

  -- The answer block of a question with options.
  unfoldable pub interactive_answer : Question → Json
  unfolding content_block answer_text analysis_images
  interactive_answer q =
      let explanation = text_or_empty q.official_explanation_md in
      if is_empty explanation
      then content_block (answer_text q.official_answer) []
      else content_block explanation (analysis_images q)

  unfoldable pub source_json : Paper → Question → Json
  unfolding txt
  source_json p q = obj (
      field (txt "provider") (str (txt "fenbi-study-pipeline")) (
        field (txt "paper_id") (str p.id) (
          field (txt "sequence") (integer (pos q.sequence)) (
            field (txt "is_correct") (is_correct_json q.is_correct) (
              field (txt "verification_status") (str (pipeline_value q.verification_status))
                end)))))

  -- A mistake with its kind, its answer block and what follows the common fields.
  unfoldable pub mistake_with : Paper → Question → Text → Json → Fields → Json
  unfolding txt content_block question_images answer_text from_list source_json
  mistake_with p q kind answer rest = obj (
      field (txt "id") (str q.id) (
        field (txt "kind") (str kind) (
          field (txt "folder_id") (str (txt "default")) (
            field (txt "question") (content_block q.stem_md (question_images q)) (
              field (txt "standard_answer") answer (
                field (txt "user_solution") (content_block (answer_text q.user_answer) []) (
                  field (txt "note") (str []) (
                    field (txt "tags")
                      (texts (txt "粉笔导入" ∷ first_text (text_or_empty p.subject) p.platform ∷ []))
                      (field (txt "knowledge_points") (texts q.official_knowledge_points) (
                        field (txt "created_at") (str now)
                          (field (txt "source") (source_json p q) rest)))))))))))

  unfoldable pub mistake_of : Paper → Question → Json
  unfolding mistake_with interactive_answer interaction_json content_block answer_text
      analysis_images txt
  mistake_of p q =
      if is_empty q.options
      then mistake_with p q (txt "legacy")
          (content_block (answer_text q.official_answer) (analysis_images q)) end
      else mistake_with p q (txt "interactive") (interactive_answer q)
          (field (txt "interaction") (obj (interaction_json q)) end)

  -- The document around the mistakes.
  unfoldable pub package_with : Paper → Option Text → List Json → Fields
  unfolding txt from_list
  package_with p title mistakes = field (txt "format") (str package_format) (
      field (txt "schema_version") (integer (pos 1)) (
        field (txt "title")
          (str (first_text (text_or_empty title) (first_text p.title (txt "粉笔错题包"))))
          (field (txt "created_at") (str now) (
            field (txt "folders")
              (arr (
                from_list (
                  obj (
                    field (txt "id") (str (txt "default")) (
                      field (txt "name") (str (first_text p.title (txt "导入错题")))
                        (field (txt "parent_id") null end)))
                  ∷ [])))
              (field (txt "mistakes") (arr (from_list mistakes)) (
                field (txt "media") (arr nil) (
                  field (txt "meta")
                    (obj (
                      field (txt "paper_id") (str p.id) (
                        field (txt "platform") (str p.platform)
                          (field (txt "exported_by") (str (txt "fenbi-study-pipeline")) end))))
                    end)))))))

  unfoldable pub package_from_questions : Paper → List Question → Option Text → Bool → Fields
  unfolding package_with mistake_of exported_questions
  package_from_questions p questions title only_wrong =
      package_with p title (map (mistake_of p) (exported_questions only_wrong questions))
