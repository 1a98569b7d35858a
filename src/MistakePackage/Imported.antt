-- ===== src/MistakePackage/Imported.antt =====
-- What an import of a mistake package gives.
use dingzhen_notebook.Common.{
  ℕ, suc, ◌≤◌, ◌≡◌, Bool, true, false, ◌&&◌, Option, none, some, List, [], ◌∷◌, Text, if◌then◌else◌,
  length, is_some, txt, ◌++◌, text_eq,
}
use dingzhen_notebook.Common.Decimal.{decimal}
use dingzhen_notebook.Common.Sort.{sort, text_order}
use dingzhen_notebook.MistakePackage.Answers.{parse_answers}
use dingzhen_notebook.Common.Dict.{Dict}
use dingzhen_notebook.Json.{Json, obj, end, Fields}
use dingzhen_notebook.Core.Question.{Question, Paper, answered, unknown, normalize_answers}
use dingzhen_notebook.Core.Question.Laws.{IsValidated}
use dingzhen_notebook.MistakePackage.{get_truthy, text_at, validate_package}
use dingzhen_notebook.MistakePackage.Import.{
  graded, content_of, items_at, or_none, as_fields, Interaction,
}

-- What a grade says of the labels of two answers.
abbrev pub IsGrade : Option (List Text) → Option (List Text) → Option Bool → Type 0
IsGrade (some user) (some official) (some true) = sort text_order user ≡ sort text_order official
IsGrade (some user) (some official) (some false) =
    ¬ (sort text_order user ≡ sort text_order official)
IsGrade (some user) (some official) none = ⊥
IsGrade (some user) none grade = grade ≡ none
IsGrade none official grade = grade ≡ none

-- The facts that validation keeps.
record IsPut (pid : Text) (k : ℕ) (q : Question) : Type 0 where
  of_paper : q.paper_id ≡ pid
  numbered : q.sequence ≡ k
  graded : is_some q.is_correct ≡ is_some q.user_answer && is_some q.official_answer
  attempted : q.attempt_state ≡ (if is_some q.user_answer then answered else unknown)

-- What validation keeps of the question that it is given, and how it writes the answers.
record IsKept (raw q : Question) : Type 0 where
  known : q.id ≡ raw.id
  stem : q.stem_md ≡ raw.stem_md
  grade : q.is_correct ≡ raw.is_correct
  user : q.user_answer ≡ normalize_answers raw.user_answer
  official : q.official_answer ≡ normalize_answers raw.official_answer

-- Right answers are among the answered questions.
abbrev is_right : Question → Bool
is_right q = elim q.is_correct [ some true ↦ true | _ ↦ false ]

module _ (render : Json → Text) where
  -- The user's labels in a mistake.
  abbrev pub user_of : Fields → Option (List Text)
  user_of mistake = or_none (
      parse_answers (
        text_at render (txt "text") []
          (as_fields (get_truthy (txt "user_solution") (obj end) mistake))))

  -- A question made from a mistake: valid, of the paper, with its number, the mistake's identifier
  -- and stem and both its answers; right exactly if the labels of both are the same, ungraded if one
  -- is not there; answered if the user's answer is there.
  pub record IsImported (pid : Text) (k : ℕ) (mistake : Fields) (q : Question) : Type 0 where
    pub of_paper : q.paper_id ≡ pid
    pub numbered : q.sequence ≡ k
    pub known : q.id ≡ text_at render (txt "id") (txt "import_" ++ decimal k) mistake
    pub stem :
        q.stem_md
        ≡ text_at render (txt "text") [] (as_fields (get_truthy (txt "question") (obj end) mistake))
    pub content : Interaction
    pub read : content_of render mistake ≡ some content
    pub user : q.user_answer ≡ normalize_answers (user_of mistake)
    pub official : q.official_answer ≡ normalize_answers content.official
    pub grade : IsGrade (user_of mistake) content.official q.is_correct
    pub graded_both : is_some q.is_correct ≡ is_some q.user_answer && is_some q.official_answer
    pub attempted : q.attempt_state ≡ (if is_some q.user_answer then answered else unknown)
    pub validated : IsValidated q

  abbrev pub is_object : Json → Bool
  is_object (obj d) = true
  is_object _ = false

  -- The questions of a package's mistakes, numbered from `k` on: one for each object, none for
  -- anything else, which takes a number too.
  pub data Imports (pid : Text) : ℕ → List Json → List Question → Type 0 where
    no_mistakes : {k : ℕ} → Imports pid k [] []
    made_from :
        {k : ℕ} {mistake : Fields} {ms : List Json} {q : Question} {qs : List Question}
        → IsImported pid k mistake q
        → Imports pid (suc k) ms qs
        → Imports pid k (obj mistake ∷ ms) (q ∷ qs)
    skipped :
        {k : ℕ} {x : Json} {ms : List Json} {qs : List Question}
        → is_object x ≡ false
        → Imports pid (suc k) ms qs
        → Imports pid k (x ∷ ms) qs

  -- An import: the package passed validation, and the paper's counts fit its questions.
  pub record IsImport (document : Fields) (p : Paper) (qs : List Question) : Type 0 where
    pub accepted : validate_package render document ≡ some []
    pub questions : Imports p.id 1 (items_at (txt "mistakes") document) qs
    pub total : p.total_questions ≡ length qs
    pub answered_fit : p.answered_questions ≤ p.total_questions
    pub correct_fit : p.correct_questions ≤ p.answered_questions
