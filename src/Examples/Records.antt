-- ===== src/Examples/Records.antt =====
-- Questions, answers and identifiers on concrete inputs.
use dingzhen_notebook.Common.{txt, text_beq, some, [], ◌∷◌, ◌≡◌, refl, ◌↔◌}
use dingzhen_notebook.Common.Strings.{strip}
use dingzhen_notebook.Core.Question.{model_validate, verified}
use dingzhen_notebook.Core.Question.Laws.{model_validate_idem, model_validate_of_validated}
use dingzhen_notebook.Core.Integrity.{assess_question, transition_question, codes}
use dingzhen_notebook.Core.Integrity.Complete.{IsComplete, assess-verified_iff}
use dingzhen_notebook.Core.Integrity.Transition.{transition_question_lem}
use dingzhen_notebook.Core.Answers.{parse_choice_answers, IsReading, parse_choice_answers-IsReading}
use dingzhen_notebook.Core.Ids.{safe_paper_id}
use dingzhen_notebook.Core.Ids.Laws.{IsPathSafe, safe_paper_id-IsPathSafe}
use dingzhen_notebook.Examples.Samples.{sample, sample-IsValidated, unofficial_sample}

assess-verified_iff_example :
    ((assess_question sample 800_000).status ≡ verified) ↔ IsComplete sample 800_000
assess-verified_iff_example = assess-verified_iff sample 800_000

transition_question_lem_example : transition_question unofficial_sample 800_000 ≡ (
  record unofficial_sample {
    verification_status = (assess_question unofficial_sample 800_000).status;
    review_reasons = codes (assess_question unofficial_sample 800_000).issues;
  },
  assess_question unofficial_sample 800_000,
)
transition_question_lem_example = transition_question_lem unofficial_sample 800_000

model_validate_idem_example : model_validate sample ≡ some sample
model_validate_idem_example =
    model_validate_idem sample sample (model_validate_of_validated sample sample-IsValidated)

letters : parse_choice_answers (some (txt "A、C")) ≡ some (txt "A" ∷ txt "C" ∷ [])
unfolding parse_choice_answers txt strip text_beq
letters = refl

parse_choice_answers-IsReading_example : IsReading (txt "A、C") (txt "A" ∷ txt "C" ∷ [])
parse_choice_answers-IsReading_example =
    parse_choice_answers-IsReading (txt "A、C") (txt "A" ∷ txt "C" ∷ []) letters

accepted : safe_paper_id (txt " 2024 mock ") ≡ some (txt "2024_mock")
unfolding safe_paper_id txt strip
accepted = refl

safe_paper_id-IsPathSafe_example : IsPathSafe (txt "2024_mock")
safe_paper_id-IsPathSafe_example =
    safe_paper_id-IsPathSafe (txt " 2024 mock ") (txt "2024_mock") accepted
