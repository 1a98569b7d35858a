-- ===== src/Core/Repository/Invariant.antt =====
-- What every stored row satisfies, and that each operation keeps it.
use dingzhen_notebook.Common.{
  ℕ, ◌≡◌, refl, sym, ap, subst, Bool, true, false, List, [], ◌∷◌, Text, text_eq, ◌==◌, All, none,
  some, Option-cases, Bool-cases, inl, inr, if◌then◌else◌,
}
use dingzhen_notebook.Common.Dict.{Dict, insert, erase, has_key, lookup-insert}
use dingzhen_notebook.Core.Question.{Question, Paper, in_bounds, normalize, model_validate}
use dingzhen_notebook.Core.Question.Laws.{IsValidated, model_validate-IsValidated}
use dingzhen_notebook.Core.Integrity.{transition_question, default_threshold}
use dingzhen_notebook.Core.Integrity.Transition.{settled-IsValidated, transition_question_lem}
use dingzhen_notebook.Core.Repository.{
  PaperRow, QuestionRow, Database, paper_row, question_row, upsert_paper, upsert_question,
  delete_question,
}

-- The columns of a row repeat its payload, the payload is a validated question, and the paper
-- that it belongs to is there.
pub record IsSound (papers : Dict Text PaperRow) (e : Text × QuestionRow) : Type 0 where
  pub key : e.0 ≡ e.1.payload.id
  pub columns : e.1 ≡ question_row e.1.payload
  pub validated : IsValidated e.1.payload
  pub paper : has_key e.1.paper_id papers ≡ true

unfoldable pub IsConsistent : Database → Type 0
IsConsistent db = All (IsSound db.papers) db.questions

module _ (papers : Dict Text PaperRow) where
  All-insert :
      (k : Text) (row : QuestionRow) (d : Dict Text QuestionRow)
      → IsSound papers (k, row)
      → All (IsSound papers) d
      → All (IsSound papers) (insert k row d)
  unfolding insert
  All-insert k row [] h hs = (h, tt)
  All-insert k row ((j, old) ∷ d) h hs = elim (Bool-cases (k == j)) [
    | inl same ↦ rw same (h, hs.1)
    | inr other ↦ rw other (hs.0, All-insert k row d h hs.1)
  ]

  All-erase :
      (k : Text) (d : Dict Text QuestionRow)
      → All (IsSound papers) d
      → All (IsSound papers) (erase k d)
  unfolding erase
  All-erase k [] hs = tt
  All-erase k ((j, old) ∷ d) hs = elim (Bool-cases (k == j)) [
    | inl same ↦ rw same (hs.1)
    | inr other ↦ rw other (hs.0, All-erase k d hs.1)
  ]

-- More papers do not harm.
has_key-insert :
    (k j : Text) (row : PaperRow) (papers : Dict Text PaperRow)
    → has_key j papers ≡ true
    → has_key j (insert k row papers) ≡ true
has_key-insert k j row papers h = elim (Bool-cases (j == k)) [
  | inl same ↦ rw (lookup-insert k j row papers) (rw same refl)
  | inr other ↦ rw (lookup-insert k j row papers) (rw other h)
]

All-more_papers :
    (k : Text) (row : PaperRow) (papers : Dict Text PaperRow) (d : Dict Text QuestionRow)
    → All (IsSound papers) d
    → All (IsSound (insert k row papers)) d
All-more_papers k row papers [] hs = tt
All-more_papers k row papers (e ∷ d) hs = (
  record {
    key = hs.0.key;
    columns = hs.0.columns;
    validated = hs.0.validated;
    paper = has_key-insert k e.1.paper_id row papers hs.0.paper;
  },
  All-more_papers k row papers d hs.1,
)

pub upsert_paper-IsConsistent :
    (now : ℕ) (p : Paper) (db : Database) → IsConsistent db → IsConsistent (upsert_paper now p db).1
unfolding upsert_paper IsConsistent
upsert_paper-IsConsistent now p db h =
    All-more_papers p.id (paper_row (record p { updated_at = now })) db.papers db.questions h

delete_question-IsConsistent :
    (id : Text) (db : Database) → IsConsistent db → IsConsistent (delete_question id db).1
unfolding delete_question IsConsistent
delete_question-IsConsistent id db h = elim (Bool-cases (has_key id db.questions)) [
  | inl there ↦ rw there (All-erase db.papers id db.questions h)
  | inr missing ↦ rw missing h
]

store-IsConsistent :
    (q : Question) (db : Database)
    → IsValidated q
    → has_key q.paper_id db.papers ≡ true
    → IsConsistent db
    → IsConsistent (record db { questions = insert q.id (question_row q) db.questions })
unfolding IsConsistent question_row
store-IsConsistent q db v paper h =
    All-insert db.papers q.id (question_row q) db.questions
      (record { key = refl; columns = refl; validated = v; paper = paper }) h

-- What may be stored: with assessment, a question in its bounds with normal answers and labels,
-- as every constructed `Question` is; without, a question that is validated as it stands.
abbrev pub IsStorable : Bool → Question → Type 0
IsStorable true q = (in_bounds q ≡ true) × (normalize q ≡ q)
IsStorable false q = IsValidated q

-- The question that an upsert stores.
abbrev pub assessed : Bool → Question → Question
assessed assess q = if assess then (transition_question q default_threshold).0 else q

pub assessed-IsValidated :
    (assess : Bool) (q : Question) → IsStorable assess q → IsValidated (assessed assess q)
assessed-IsValidated true q h =
    subst IsValidated (sym (ap (λ r. r.0) (transition_question_lem q default_threshold)))
      (settled-IsValidated q default_threshold h.0 h.1)
assessed-IsValidated false q h = h

upsert-IsConsistent_of :
    (q : Question) (db : Database)
    → IsValidated q
    → IsConsistent db
    → IsConsistent (upsert_question false q db).2
unfolding upsert_question
upsert-IsConsistent_of q db v h = elim (Bool-cases (has_key q.paper_id db.papers)) [
  | inl there ↦ rw there (store-IsConsistent q db v there h)
  | inr missing ↦ rw missing h
]

-- An upsert with assessment is one without, of the assessed question.
pub upsert-assessed :
    (assess : Bool) (q : Question) (db : Database)
    → upsert_question assess q db ≡ upsert_question false (assessed assess q) db
unfolding upsert_question
upsert-assessed true q db = refl
upsert-assessed false q db = refl

pub upsert_question-IsConsistent :
    (assess : Bool) (q : Question) (db : Database)
    → IsStorable assess q
    → IsConsistent db
    → IsConsistent (upsert_question assess q db).2
upsert_question-IsConsistent assess q db v h =
    rw (upsert-assessed assess q db)
      (upsert-IsConsistent_of (assessed assess q) db (assessed-IsValidated assess q v) h)

-- A constructed question may be stored, with assessment or without.
IsValidated-IsStorable : (assess : Bool) (q : Question) → IsValidated q → IsStorable assess q
IsValidated-IsStorable true q v = (v.bounded, v.normal)
IsValidated-IsStorable false q v = v

-- A write: of a paper, of a question that is constructed from any values of its fields, or a
-- deletion.
pub data Write : Type 0 where
  write_paper : ℕ → Paper → Write
  write_question : Bool → Question → Write
  remove_question : Text → Write

-- Values that the constructor of a question does not accept are never upserted.
unfoldable pub apply : Write → Database → Database
unfolding model_validate upsert_paper upsert_question delete_question
apply (write_paper now p) db = (upsert_paper now p db).1
apply (write_question assess values) db = elim (model_validate values) [
  | none ↦ db
  | some q ↦ (upsert_question assess q db).2
]
apply (remove_question id) db = (delete_question id db).1

unfoldable pub apply_all : List Write → Database → Database
unfolding apply
apply_all [] db = db
apply_all (w ∷ ws) db = apply_all ws (apply w db)

apply-IsConsistent : (w : Write) (db : Database) → IsConsistent db → IsConsistent (apply w db)
unfolding apply
apply-IsConsistent (write_paper now p) db h = upsert_paper-IsConsistent now p db h
apply-IsConsistent (write_question assess values) db h =
    elim (Option-cases (model_validate values)) [
      | inl refused ↦ rw (apply, refused) h
      | inr (q, made) ↦
          let v = IsValidated-IsStorable assess q (model_validate-IsValidated values q made) in
          rw (apply, made) (upsert_question-IsConsistent assess q db v h)
    ]
apply-IsConsistent (remove_question id) db h = delete_question-IsConsistent id db h

-- After any sequence of upserts and deletions on a consistent database, failed ones included, where
-- each question is constructed from any values, each stored question has its paper, its row repeats
-- its payload, and its payload is validated.
pub apply_all-IsConsistent :
    (ws : List Write) (db : Database) → IsConsistent db → IsConsistent (apply_all ws db)
unfolding apply_all
apply_all-IsConsistent [] db h = h
apply_all-IsConsistent (w ∷ ws) db h =
    apply_all-IsConsistent ws (apply w db) (apply-IsConsistent w db h)
