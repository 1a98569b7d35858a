-- ===== src/Core/Repository/Reading.antt =====
-- What the reading operations return from a consistent database.
use dingzhen_notebook.Common.{
  ◌≡◌, refl, Bool, true, false, ◌&&◌, Option, some, List, [], ◌∷◌, map, Text, text_eq, ◌==◌, All,
  Bool-cases, inl, inr, if◌then◌else◌, All-select,
}
use dingzhen_notebook.Common.Dict.{Dict, has_key, lookup-insert}
use dingzhen_notebook.Common.Sort.{All-sort, by, numbered_order, labelled_order}
use dingzhen_notebook.Core.Question.{Question, PipelineStatus, needs_review}
use dingzhen_notebook.Core.Question.Laws.{IsValidated, model_validate_of_validated}
use dingzhen_notebook.Core.Repository.{
  PaperRow, QuestionRow, Database, question_row, upsert_question, get_question, found, rows,
  load_all, listed_rows, queued_rows, list_questions, review_queue, same_status, in_paper,
  has_status,
}
use dingzhen_notebook.Core.Repository.Invariant.{
  IsConsistent, IsSound, IsStorable, assessed, assessed-IsValidated, upsert-assessed,
}

get-stored :
    (q : Question) (db : Database) (id : Text)
    → IsValidated q
    → has_key q.paper_id db.papers ≡ true
    → get_question id (upsert_question false q db).2
      ≡ (if id == q.id then found q else get_question id db)
unfolding get_question upsert_question question_row
get-stored q db id v there = rw there (
    rw (lookup-insert q.id id (question_row q) db.questions) (elim (Bool-cases (id == q.id)) [
      | inl same ↦ rw same (rw (model_validate_of_validated q v))
      | inr other ↦ rw other
    ]))

-- After a successful upsert, loading the same identifier gives back the question as it was stored,
-- assessed or not, and loading any other one gives what it gave before.
pub get-upsert :
    (assess : Bool) (q : Question) (db : Database) (id : Text)
    → IsStorable assess q
    → has_key (assessed assess q).paper_id db.papers ≡ true
    → get_question id (upsert_question assess q db).2
      ≡ (if id == (assessed assess q).id then found (assessed assess q) else get_question id db)
get-upsert assess q db id v there =
    rw (upsert-assessed assess q db)
      (get-stored (assessed assess q) db id (assessed-IsValidated assess q v) there)

abbrev pub payload : QuestionRow → Question
payload row = row.payload

-- A row of a consistent database, without its key.
abbrev pub IsRow : Database → QuestionRow → Type 0
IsRow db row = (row ≡ question_row row.payload) × IsValidated row.payload

rows-IsRow :
    (papers : Dict Text PaperRow) (d : Dict Text QuestionRow)
    → All (IsSound papers) d
    → All (λ row. (row ≡ question_row row.payload) × IsValidated row.payload) (map (λ e. e.1) d)
rows-IsRow papers [] h = tt
rows-IsRow papers (e ∷ d) h = ((h.0.columns, h.0.validated), rows-IsRow papers d h.1)

load_all_lem :
    (rs : List QuestionRow)
    → All (λ row. (row ≡ question_row row.payload) × IsValidated row.payload) rs
    → load_all rs ≡ some (map payload rs)
unfolding load_all
load_all_lem [] h = refl
load_all_lem (r ∷ rs) h = rw (model_validate_of_validated r.payload (h.0.1), load_all_lem rs h.1)

module _ (db : Database) (h : IsConsistent db) where
  pub All-rows : All (IsRow db) (rows db)
  unfolding IsConsistent
  All-rows = rows-IsRow db.papers db.questions h

  -- Listing the questions of a paper never fails on a consistent database: it returns the
  -- payloads of exactly the rows that match, sorted by sequence and identifier.
  pub list_questions_lem :
      (paper_id : Text) (status : Option PipelineStatus)
      → list_questions paper_id status db ≡ some (map payload (listed_rows paper_id status db))
  unfolding list_questions listed_rows
  list_questions_lem paper_id status = load_all_lem (listed_rows paper_id status db) (
      All-sort (by (λ row. (row.sequence, row.id)) numbered_order) (IsRow db) _ (
        All-select (IsRow db) (λ row. row.paper_id == paper_id && has_status status row) (rows db)
          All-rows))

  pub review_queue_loads :
      (paper_id : Option Text)
      → review_queue paper_id db ≡ some (map payload (queued_rows paper_id db))
  unfolding review_queue queued_rows
  review_queue_loads paper_id = load_all_lem (queued_rows paper_id db) (
      All-sort (by (λ row. (row.paper_id, row.sequence)) labelled_order) (IsRow db) _ (
        All-select (IsRow db)
          (λ row. same_status row.verification_status needs_review && in_paper paper_id row)
          (rows db) All-rows))
