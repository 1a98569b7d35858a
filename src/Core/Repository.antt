-- ===== src/Core/Repository.antt =====
-- packages/core/repository.py and the tables of packages/core/database.py. A table is a dictionary
-- from primary keys to rows, in the order of insertion. A payload is the dumped model: dumping
-- and parsing JSON give every field back, and the validators run again on loading.
pub mod Invariant
pub mod Reading
pub mod Queue
use dingzhen_notebook.Common.{
  ℕ, Bool, true, false, ◌&&◌, Option, none, some, List, [], ◌∷◌, map, Text, text_eq, ◌==◌, String,
  select, if◌then◌else◌,
}
use dingzhen_notebook.Common.Dict.{Dict, lookup, insert, erase, has_key}
use dingzhen_notebook.Common.Sort.{sort, by, numbered_order, labelled_order}
use dingzhen_notebook.Core.Question.{
  Question, Paper, PipelineStatus, raw_captured, preprocessed, ocr_done, parsed,
  completeness_checked, needs_review, verified, exported, model_validate,
}
use dingzhen_notebook.Core.Integrity.{transition_question, default_threshold}

pub record PaperRow : Type 0 where
  pub id : Text
  pub title : Text
  pub capture_status : PipelineStatus
  pub payload : Paper
  pub updated_at : ℕ

pub record QuestionRow : Type 0 where
  pub id : Text
  pub paper_id : Text
  pub sequence : ℕ
  pub verification_status : PipelineStatus
  pub payload : Question

pub record Database : Type 0 where
  pub papers : Dict Text PaperRow
  pub questions : Dict Text QuestionRow

-- `create_schema` on a new database
abbrev pub empty : Database
empty = record { papers = []; questions = [] }

unfoldable pub paper_row : Paper → PaperRow
paper_row p = record {
  id = p.id;
  title = p.title;
  capture_status = p.capture_status;
  payload = p;
  updated_at = p.updated_at;
}

-- Returns the paper, whose `updated_at` was set to the time of the call.
unfoldable pub upsert_paper : ℕ → Paper → Database → Paper × Database
unfolding insert paper_row
upsert_paper now paper db =
    let stamped = record paper { updated_at = now } in
    (stamped, record db { papers = insert paper.id (paper_row stamped) db.papers })

unfoldable pub get_paper : Text → Database → Option Paper
unfolding lookup
get_paper paper_id db = elim (lookup paper_id db.papers) [
  | none ↦ none
  | some row ↦ some row.payload
]

unfoldable pub question_row : Question → QuestionRow
question_row q = record {
  id = q.id;
  paper_id = q.paper_id;
  sequence = q.sequence;
  verification_status = q.verification_status;
  payload = q;
}

-- How a call ends: with a value, or with the `KeyError` for an unknown paper.
pub data Outcome : Type 0 where
  stored : Outcome
  paper_missing : Outcome

-- The question is assessed, and so mutated, before the paper is looked for.
unfoldable pub upsert_question : Bool → Question → Database → Question × Outcome × Database
unfolding transition_question lookup insert question_row
upsert_question assess question db =
    let q = if assess then (transition_question question default_threshold).0 else question in
    if has_key q.paper_id db.papers
    then (q, stored, record db { questions = insert q.id (question_row q) db.questions })
    else (q, paper_missing, db)

-- What loading a row gives: `invalid` is the `ValidationError`.
pub data Loaded {ℓ} (A : Type ℓ) : Type ℓ where
  absent invalid : Loaded A
  found : A → Loaded A

abbrev pub loaded : Option Question → Loaded Question
loaded none = invalid
loaded (some q) = found q

abbrev pub load_row : Option QuestionRow → Loaded Question
load_row none = absent
load_row (some row) = loaded (model_validate row.payload)

unfoldable pub get_question : Text → Database → Loaded Question
unfolding lookup model_validate
get_question question_id db = load_row (lookup question_id db.questions)

abbrev pub rows : Database → List QuestionRow
rows db = map (λ e. e.1) db.questions

unfoldable pub same_status : PipelineStatus → PipelineStatus → Bool
same_status raw_captured raw_captured = true
same_status preprocessed preprocessed = true
same_status ocr_done ocr_done = true
same_status parsed parsed = true
same_status completeness_checked completeness_checked = true
same_status needs_review needs_review = true
same_status verified verified = true
same_status exported exported = true
same_status _ _ = false

abbrev pub and_question : Option Question → Option (List Question) → Option (List Question)
and_question none qs = none
and_question (some q) none = none
and_question (some q) (some qs) = some (q ∷ qs)

-- `[Question.model_validate(row.payload) for row in rows]`
unfoldable pub load_all : List QuestionRow → Option (List Question)
unfolding model_validate
load_all [] = some []
load_all (row ∷ rest) = and_question (model_validate row.payload) (load_all rest)

abbrev pub has_status : Option PipelineStatus → QuestionRow → Bool
has_status none row = true
has_status (some s) row = same_status row.verification_status s

abbrev pub in_paper : Option Text → QuestionRow → Bool
in_paper none row = true
in_paper (some p) row = row.paper_id == p

-- `ORDER BY sequence, id`
unfoldable pub listed_rows : Text → Option PipelineStatus → Database → List QuestionRow
unfolding sort select same_status
listed_rows paper_id status db =
    sort (by (λ row. (row.sequence, row.id)) numbered_order)
      (select (λ row. row.paper_id == paper_id && has_status status row) (rows db))

unfoldable pub list_questions : Text → Option PipelineStatus → Database → Option (List Question)
unfolding listed_rows load_all
list_questions paper_id status db = load_all (listed_rows paper_id status db)

-- `ORDER BY paper_id, sequence`; rows that agree on both keep the order of insertion.
unfoldable pub queued_rows : Option Text → Database → List QuestionRow
unfolding sort select same_status
queued_rows paper_id db = sort (by (λ row. (row.paper_id, row.sequence)) labelled_order) (
    select (λ row. same_status row.verification_status needs_review && in_paper paper_id row)
      (rows db))

unfoldable pub review_queue : Option Text → Database → Option (List Question)
unfolding queued_rows load_all
review_queue paper_id db = load_all (queued_rows paper_id db)

unfoldable pub delete_question : Text → Database → Bool × Database
unfolding lookup erase
delete_question question_id db =
    if has_key question_id db.questions
    then (true, record db { questions = erase question_id db.questions })
    else (false, db)
