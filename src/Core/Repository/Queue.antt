-- ===== src/Core/Repository/Queue.antt =====
-- The review queue holds exactly the stored questions that need review.
use dingzhen_notebook.Common.{
  ◌≡◌, refl, sym, ap, ◌∙◌, Bool, true, ◌&&◌, Option, none, some, List, [], ◌∷◌, map, Text, text_eq,
  ◌==◌, All, arith, ℕ, ◌+◌, if◌then◌else◌, Bool-cases, inl, inr, subst, count, select, All-select,
  select-passes,
}
use dingzhen_notebook.Common.Sort.{
  by, labelled_order, count-sort, All-sort, IsSorted, sort-IsSorted,
}
use dingzhen_notebook.Core.Question.{
  Question, PipelineStatus, needs_review, raw_captured, preprocessed, ocr_done, parsed,
  completeness_checked, verified, exported,
}
use dingzhen_notebook.Core.Repository.{
  QuestionRow, Database, question_row, rows, queued_rows, review_queue, same_status, in_paper,
}
use dingzhen_notebook.Core.Repository.Invariant.{IsConsistent}
use dingzhen_notebook.Core.Repository.Reading.{payload, IsRow, All-rows, review_queue_loads}

needs_review_of_same : (s : PipelineStatus) → same_status s needs_review ≡ true → s ≡ needs_review
unfolding same_status
needs_review_of_same raw_captured h = cc
needs_review_of_same preprocessed h = cc
needs_review_of_same ocr_done h = cc
needs_review_of_same parsed h = cc
needs_review_of_same completeness_checked h = cc
needs_review_of_same needs_review h = refl
needs_review_of_same verified h = cc
needs_review_of_same exported h = cc

abbrev waits : Option Text → QuestionRow → Bool
waits paper_id row = same_status row.verification_status needs_review && in_paper paper_id row

-- The stored question needs review and is of the paper, read off its payload.
abbrev pub awaits_review : Option Text → Question → Bool
awaits_review none q = same_status q.verification_status needs_review
awaits_review (some p) q = same_status q.verification_status needs_review && q.paper_id == p

waits-payload :
    (paper_id : Option Text) (row : QuestionRow)
    → row ≡ question_row row.payload
    → waits paper_id row ≡ awaits_review paper_id row.payload
unfolding question_row
waits-payload none row e = ap (λ r. waits none r) e ∙ ground arith
waits-payload (some p) row e = ap (λ r. waits (some p) r) e

-- The waiting rows, counted by their payloads.
count-waits :
    (p : Question → Bool) (paper_id : Option Text) (rs : List QuestionRow)
    → All (λ row. row ≡ question_row row.payload) rs
    → count (λ row. p row.payload) (select (waits paper_id) rs)
      ≡ count p (select (awaits_review paper_id) (map payload rs))
unfolding count select
count-waits p paper_id [] h = refl
count-waits p paper_id (r ∷ rs) h =
    let rest = count-waits p paper_id rs h.1 in
    elim (Bool-cases (awaits_review paper_id r.payload)) [
      | inl e ↦ rw (select, waits-payload paper_id r h.0, e) (ap (λ n. one (p r.payload) + n) rest)
      | inr e ↦ rw (select, waits-payload paper_id r h.0, e) rest
    ]
  where
    one : Bool → ℕ
    one b = if b then 1 else 0

count-map_payload :
    (p : Question → Bool) (rs : List QuestionRow)
    → count p (map payload rs) ≡ count (λ row. p row.payload) rs
unfolding count
count-map_payload p [] = refl
count-map_payload p (r ∷ rs) = omega (arith, count-map_payload p rs)

columns_of :
    (db : Database) (rs : List QuestionRow)
    → All (IsRow db) rs
    → All (λ row. row ≡ question_row row.payload) rs
columns_of db [] h = tt
columns_of db (r ∷ rs) h = (h.0.0, columns_of db rs h.1)

-- The order of the queue, by the questions themselves.
abbrev pub place_of : Question → Text × ℕ
place_of q = (q.paper_id, q.sequence)

abbrev row_place : QuestionRow → Text × ℕ
row_place row = (row.paper_id, row.sequence)

All-before :
    (x : QuestionRow) (rs : List QuestionRow)
    → x ≡ question_row x.payload
    → All (λ row. row ≡ question_row row.payload) rs
    → All (λ row. labelled_order.le (row_place x) (row_place row) ≡ true) rs
    → All (λ q. labelled_order.le (place_of x.payload) (place_of q) ≡ true) (map payload rs)
unfolding question_row
All-before x [] e es h = tt
All-before x (r ∷ rs) e es h = (
  subst (λ (u : QuestionRow). labelled_order.le (place_of x.payload) (row_place u) ≡ true) es.0
      (subst (λ (u : QuestionRow). labelled_order.le (row_place u) (row_place r) ≡ true) e h.0),
  All-before x rs e es.1 h.1,
)

IsSorted-payload :
    (rs : List QuestionRow)
    → All (λ row. row ≡ question_row row.payload) rs
    → IsSorted (by row_place labelled_order) rs
    → IsSorted (by place_of labelled_order) (map payload rs)
IsSorted-payload [] es h = tt
IsSorted-payload (r ∷ rs) es h = (All-before r rs es.0 es.1 h.0, IsSorted-payload rs es.1 h.1)

-- The queue of a paper, or of all papers.
pub record IsQueue (paper_id : Option Text) (db : Database) (queue : List Question) : Type 0 where
  pub waiting : All (λ q. awaits_review paper_id q ≡ true) queue
  pub all_of_them :
      (p : Question → Bool)
      → count p queue ≡ count p (select (awaits_review paper_id) (map payload (rows db)))
  pub ordered : IsSorted (by place_of labelled_order) queue

module _ (db : Database) (h : IsConsistent db) (paper_id : Option Text) where
  waiting_payloads :
      (rs : List QuestionRow)
      → All (IsRow db) rs
      → All (λ row. waits paper_id row ≡ true) rs
      → All (λ q. awaits_review paper_id q ≡ true) (map payload rs)
  waiting_payloads [] r w = tt
  waiting_payloads (x ∷ xs) r w =
      (sym (waits-payload paper_id x r.0.0) ∙ w.0, waiting_payloads xs r.1 w.1)

  queued_waits : All (λ row. waits paper_id row ≡ true) (queued_rows paper_id db)
  unfolding queued_rows
  queued_waits =
      All-sort (by (λ row. (row.paper_id, row.sequence)) labelled_order) _ _
        (select-passes (waits paper_id) (rows db))

  queued_are_rows : All (IsRow db) (queued_rows paper_id db)
  unfolding queued_rows
  queued_are_rows =
      All-sort (by (λ row. (row.paper_id, row.sequence)) labelled_order) (IsRow db) _
        (All-select (IsRow db) (waits paper_id) (rows db) (All-rows db h))

  queue_counts :
      (p : Question → Bool)
      → count p (map payload (queued_rows paper_id db))
        ≡ count p (select (awaits_review paper_id) (map payload (rows db)))
  unfolding queued_rows
  queue_counts p =
      count-map_payload p (queued_rows paper_id db)
      ∙ count-sort (by row_place labelled_order) (λ row. p row.payload)
          (select (waits paper_id) (rows db))
      ∙ count-waits p paper_id (rows db) (columns_of db (rows db) (All-rows db h))

  queued-IsQueue : IsQueue paper_id db (map payload (queued_rows paper_id db))
  unfolding queued_rows
  queued-IsQueue = record {
    waiting = waiting_payloads (queued_rows paper_id db) queued_are_rows queued_waits;
    all_of_them = queue_counts;
    ordered =
        IsSorted-payload (queued_rows paper_id db)
          (columns_of db (queued_rows paper_id db) queued_are_rows)
          (sort-IsSorted (by row_place labelled_order) (select (waits paper_id) (rows db)));
  }

  -- On a consistent database the review queue loads, and holds exactly the stored questions that
  -- need review, of the paper if one is given: each of its questions does, any test holds of as many
  -- of them as of the stored questions that do, and they come in the order of paper and sequence.
  pub review_queue-IsQueue :
      (queue : List Question) × (review_queue paper_id db ≡ some queue) × IsQueue paper_id db queue
  review_queue-IsQueue =
      (map payload (queued_rows paper_id db), review_queue_loads db h paper_id, queued-IsQueue)
