-- ===== src/MistakePackage/Exported.antt =====
-- An exported mistake package passes validation.
use dingzhen_notebook.Common.{
  ℕ, suc, ◌≡◌, refl, ap, ◌∙◌, Bool, true, false, ◌&&◌, Bool-cases, inl, inr, Option, some, List, [],
  ◌∷◌, ◌++◌, map, Text, text_eq, text_beq, ◌==◌, elem, txt, is_empty, All,
}
use dingzhen_notebook.Common.Strings.{strip}
use dingzhen_notebook.Json.{
  Json, nil, str, arr, obj, Fields, end, field, to_list, from_list, to_list-from_list, get_or,
  get_field, truthy, to_int,
}
use dingzhen_notebook.Core.Question.{
  Question, Paper, QuestionType, single_choice, multiple_choice, true_false, other, text_or_empty,
}
use dingzhen_notebook.MistakePackage.{
  PackageError, get_truthy, iterate, is_media, check_paths, check_lists, check_block,
  check_interaction, check_mistake, check_mistakes, check_folders, wrong_version, text_at,
  validate_package,
}
use dingzhen_notebook.MistakePackage.Answers.{answer_text}
use dingzhen_notebook.MistakePackage.Export.{
  content_block, texts, interaction_json, question_images, analysis_images, interactive_answer,
  mistake_with, mistake_of, exported_questions, package_with, package_from_questions,
}

abbrev pub IsMediaPath : Text → Type 0
IsMediaPath path = is_media path ≡ true

module _ (render : Json → Text) where
  check_paths-texts :
      (mid : Text) (images : List Text)
      → All IsMediaPath images
      → check_paths render mid (to_list (from_list (map (λ s. str s) images)) ++ []) ≡ []
  unfolding check_paths to_list from_list
  check_paths-texts mid [] h = refl
  check_paths-texts mid (s ∷ images) h = rw h.0 (check_paths-texts mid images h.1)

  text_at-str :
      (s : Text) (rest : Fields)
      → text_at render (txt "text") [] (field (txt "text") (str s) rest) ≡ s
  unfolding text_at get_or get_field truthy txt text_beq
  text_at-str [] rest = refl
  text_at-str (c ∷ s) rest = refl

  abbrev lists_of : Text → Text → Text → List Text → List PackageError
  lists_of mid name text images =
      check_lists render mid name (name == txt "question") (is_empty (strip text)) (texts images)
        (arr nil)

  check_lists-texts :
      (mid name text : Text) (images : List Text)
      → All IsMediaPath images
      → ((name == txt "question") && is_empty (strip text) && is_empty images) ≡ false
      → lists_of mid name text images ≡ []
  unfolding check_lists from_list to_list check_paths
  check_lists-texts mid name text [] h shown = rw shown refl
  check_lists-texts mid name text (s ∷ images) h shown =
      rw (h.0, check_paths-texts mid images h.1, shown) refl

  check_block-lists :
      (mid name text : Text) (images : List Text)
      → check_block render mid name (content_block text images) ≡ lists_of mid name text images
  unfolding check_block content_block get_truthy get_or get_field truthy txt text_beq from_list
  check_block-lists mid name text [] =
      ap
        (λ t.
          check_lists render mid name (name == txt "question") (is_empty (strip t)) (texts [])
            (arr nil))
        (text_at-str text (field (txt "images") (texts []) (field (txt "audio") (arr nil) end)))
  check_block-lists mid name text (s ∷ images) =
      ap
        (λ t.
          check_lists render mid name (name == txt "question") (is_empty (strip t))
            (texts (s ∷ images)) (arr nil))
        (text_at-str text
          (field (txt "images") (texts (s ∷ images)) (field (txt "audio") (arr nil) end)))

  check_block-content :
      (mid name text : Text) (images : List Text)
      → All IsMediaPath images
      → ((name == txt "question") && is_empty (strip text) && is_empty images) ≡ false
      → check_block render mid name (content_block text images) ≡ []
  check_block-content mid name text images h shown =
      check_block-lists mid name text images ∙ check_lists-texts mid name text images h shown

  check_interaction-json :
      (mid : Text) (q : Question) (t : QuestionType)
      → q.question_type ≡ t
      → check_interaction render mid (obj (interaction_json q)) ≡ []
  unfolding check_interaction interaction_json text_at get_or get_field truthy txt text_beq elem
  check_interaction-json mid q single_choice e = rw e refl
  check_interaction-json mid q multiple_choice e = rw e refl
  check_interaction-json mid q true_false e = rw e refl
  check_interaction-json mid q other e = rw e refl

  abbrev default_ids : List Text
  default_ids = txt "default" ∷ []

  append_nils : (a b c : List PackageError) → a ≡ [] → b ≡ [] → c ≡ [] → a ++ (b ++ c) ≡ []
  append_nils a b c ea eb ec = rw (ea, eb) ec

  module _ (file_name : Text → Text) (now : Text) (p : Paper) where
    -- What a question needs to be exported: images in the package, and something to show.
    pub record IsExportable (q : Question) : Type 0 where
      pub question_media : All IsMediaPath (question_images file_name now q)
      pub analysis_media : All IsMediaPath (analysis_images file_name now q)
      pub shown : is_empty (strip q.stem_md) && is_empty (question_images file_name now q) ≡ false

    check_mistake-legacy :
        (index : ℕ) (q : Question)
        → IsExportable q
        → check_mistake render default_ids index (
            mistake_with file_name now p q
              (txt "legacy")
              (content_block (answer_text q.official_answer) (analysis_images file_name now q))
              end)
          ≡ []
    unfolding check_mistake mistake_with content_block get_truthy text_at get_or get_field truthy
        txt text_beq elem
    check_mistake-legacy index q h =
        append_nils _ _ _
          (check_block-content _ (txt "question") q.stem_md (question_images file_name now q)
            h.question_media h.shown)
          (check_block-content _ (txt "standard_answer") (answer_text q.official_answer)
            (analysis_images file_name now q) h.analysis_media refl)
          refl

    check_mistake-interactive :
        (index : ℕ) (q : Question) (text : Text) (images : List Text)
        → IsExportable q
        → All IsMediaPath images
        → check_mistake render default_ids index (
            mistake_with file_name now p q
              (txt "interactive")
              (content_block text images)
              (field (txt "interaction") (obj (interaction_json q)) end))
          ≡ []
    unfolding check_mistake mistake_with content_block get_truthy text_at get_or get_field truthy
        txt text_beq elem interaction_json
    check_mistake-interactive index q text images h fits =
        append_nils _ _ _
          (check_block-content _ (txt "question") q.stem_md (question_images file_name now q)
            h.question_media h.shown)
          (check_block-content _ (txt "standard_answer") text images fits refl)
          (check_interaction-json _ q q.question_type refl)

    check_mistake-mistake_of :
        (index : ℕ) (q : Question)
        → IsExportable q
        → check_mistake render default_ids index (mistake_of file_name now p q) ≡ []
    unfolding mistake_of interactive_answer
    check_mistake-mistake_of index q h = elim (Bool-cases (is_empty q.options)) [
      | inl e ↦ rw (mistake_of, e) (check_mistake-legacy index q h)
      | inr e ↦ elim (Bool-cases (is_empty (text_or_empty q.official_explanation_md))) [
        | inl e' ↦
            rw (mistake_of, e, interactive_answer, e')
              (check_mistake-interactive index q (answer_text q.official_answer) [] h tt)
        | inr e' ↦
            rw (mistake_of, e, interactive_answer, e')
              (check_mistake-interactive index q (text_or_empty q.official_explanation_md)
                (analysis_images file_name now q) h h.analysis_media)
      ]
    ]

    check_mistakes-exported :
        (index : ℕ) (qs : List Question)
        → All IsExportable qs
        → check_mistakes render default_ids index (map (mistake_of file_name now p) qs) ≡ []
    unfolding check_mistakes
    check_mistakes-exported index [] h = refl
    check_mistakes-exported index (q ∷ qs) h =
        rw (check_mistake-mistake_of index q h.0) (check_mistakes-exported (suc index) qs h.1)

    validate_package-package_with :
        (title : Option Text) (m : Json) (ms : List Json)
        → validate_package render (package_with file_name now p title (m ∷ ms))
          ≡ some (check_mistakes render default_ids 1 (m ∷ to_list (from_list ms)))
    unfolding validate_package package_with wrong_version iterate check_folders get_truthy get_or
        get_field truthy to_int text_at from_list to_list txt text_beq elem
    validate_package-package_with title m ms = refl

    -- A package made from questions passes validation, if some question is exported and each of
    -- those has proper names for its images and a text or an image to show.
    pub validate_package-package_from_questions :
        (questions : List Question) (title : Option Text) (only_wrong : Bool) (q : Question)
        (qs : List Question)
        → exported_questions only_wrong questions ≡ q ∷ qs
        → All IsExportable (q ∷ qs)
        → validate_package render
            (package_from_questions file_name now p questions title only_wrong)
          ≡ some []
    unfolding package_from_questions
    validate_package-package_from_questions questions title only_wrong q qs some_question h =
        let made = mistake_of file_name now p in
        let listed = to_list-from_list (map made qs) in
        ap (λ xs. validate_package render (package_with file_name now p title (map made xs)))
          some_question
        ∙ validate_package-package_with title (made q) (map made qs)
        ∙ ap (λ ms. some (check_mistakes render default_ids 1 (made q ∷ ms))) listed
        ∙ ap (λ es. some es) (check_mistakes-exported 1 (q ∷ qs) h)
