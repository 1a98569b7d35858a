-- ===== src/Examples/Packages.antt =====
-- A mistake package with one question, exported and imported.
use dingzhen_notebook.Common.{Text, txt, text_beq, none, some, List, [], ◌∷◌, true, ◌≡◌, refl}
use dingzhen_notebook.Common.Strings.{strip, is_space, upper_char}
use dingzhen_notebook.Json.{Json, Fields}
use dingzhen_notebook.Core.Question.{Question, Paper}
use dingzhen_notebook.MistakePackage.{validate_package, is_media}
use dingzhen_notebook.MistakePackage.Answers.{
  IsPlain, is_separator, concat, parse_answers, answer_text, parse_answers-answer_text,
}
use dingzhen_notebook.MistakePackage.Import.{Imported, imported, questions_from_package}
use dingzhen_notebook.MistakePackage.Export.{
  package_from_questions, exported_questions, question_images, analysis_images,
}
use dingzhen_notebook.MistakePackage.Exported.{
  IsExportable, validate_package-package_from_questions,
}
use dingzhen_notebook.Examples.Samples.{sample, paper}

abbrev render : Json → Text
render v = txt "None"

abbrev file_name : Text → Text
file_name path = path

abbrev package_json : Fields
package_json = package_from_questions file_name (txt "now") paper (sample ∷ []) none true

sample-IsExportable : IsExportable render file_name (txt "now") paper sample
unfolding question_images analysis_images is_media strip txt text_beq
sample-IsExportable = record {
  question_media = (refl, tt);
  analysis_media = (refl, tt);
  shown = refl;
}

validate_package-package_from_questions_example : validate_package render package_json ≡ some []
unfolding exported_questions
validate_package-package_from_questions_example =
    validate_package-package_from_questions render file_name (txt "now") paper (sample ∷ []) none
      true sample [] refl (sample-IsExportable, tt)

abbrev outcome : Imported
outcome = questions_from_package render none none (txt "pkg_1") 0 package_json

abbrev paper_of : Imported → Paper
paper_of (imported p qs) = p
paper_of _ = paper

abbrev questions_of : Imported → List Question
questions_of (imported p qs) = qs
questions_of _ = []

a-IsPlain : IsPlain b'A'
unfolding is_space is_separator upper_char
a-IsPlain = record { solid = refl; inner = refl; capital = refl }

b-IsPlain : IsPlain b'B'
unfolding is_space is_separator upper_char
b-IsPlain = record { solid = refl; inner = refl; capital = refl }

parse_answers-answer_text_example :
    parse_answers (answer_text (some (txt "A" ∷ txt "B" ∷ []))) ≡ txt "AB" ∷ []
unfolding txt concat
parse_answers-answer_text_example =
    parse_answers-answer_text (txt "A" ∷ txt "B" ∷ []) ((a-IsPlain, tt), ((b-IsPlain, tt), tt))
