-- ===== src/Analysis/Report/Laws.antt =====
-- What a report says of the questions it is made from.
use dingzhen_notebook.Common.{
  ◌+◌, ◌≡◌, refl, ◌∙◌, Bool, true, false, ◌&&◌, not, Option, none, some, List, [], ◌∷◌, Text,
  text_eq, ◌==◌, txt, select, count, all, length, map, arith, is_empty,
}
use dingzhen_notebook.Common.Sort.{sort, by, numbered_order, length-sort, count-sort}
use dingzhen_notebook.Json.{Json}
use dingzhen_notebook.Core.Question.{
  Question, Paper, PipelineStatus, raw_captured, preprocessed, ocr_done, parsed,
  completeness_checked, needs_review, verified, exported,
}
use dingzhen_notebook.Core.Repository.{same_status}
use dingzhen_notebook.Analysis.Metric.{metric-Counts, answerable, is_wrong, is_right, ratio}
use dingzhen_notebook.Analysis.Filters.{filter_wrong_questions, is_verified}
use dingzhen_notebook.Analysis.Report.{TrendPoint, AnalysisReport, analyze_questions}

length-map {ℓ κ} :
    {A : Type ℓ} {B : Type κ} (f : A → B) (xs : List A) → length (map f xs) ≡ length xs
length-map f [] = refl
length-map f (x ∷ xs) = omega (arith, length-map f xs)

count-map :
    {A : Type 0} (p : Text → Bool) (f : A → Text) (xs : List A)
    → count p (map f xs) ≡ count (λ x. p (f x)) xs
unfolding count
count-map p f [] = refl
count-map p f (x ∷ xs) = omega (arith, count-map p f xs)

count-select :
    {A : Type 0} (p r : A → Bool) (xs : List A) → count p (select r xs) ≡ count (λ x. r x && p x) xs
unfolding count select
count-select p r [] = refl
count-select p r (x ∷ xs) = ground (arith, count-select p r xs)

-- The tallies of a report against the questions.
pub record IsTallied (report : AnalysisReport) (questions : List Question) : Type 0 where
  pub total : report.total ≡ length questions
  pub answered : report.answered ≡ count answerable questions
  pub correct : report.correct ≡ count (λ q. answerable q && is_right q.is_correct) questions
  pub wrong : report.wrong ≡ count (λ q. answerable q && is_wrong q.is_correct) questions
  pub parts : report.correct + report.wrong + report.unknown ≡ report.total
  pub accuracy : report.accuracy ≡ ratio report.correct report.answered
  pub waiting :
      report.review_count ≡ count (λ q. same_status q.verification_status needs_review) questions
  pub wrong_listed :
      (id : Text)
      → count (λ i. id == i) report.wrong_question_ids
        ≡ count (λ q. is_wrong q.is_correct && id == q.id) questions

verified_not_waiting :
    (s : PipelineStatus) (q : Question)
    → q.verification_status ≡ s
    → is_verified q ≡ true
    → same_status q.verification_status needs_review ≡ false
unfolding is_verified same_status
verified_not_waiting raw_captured q e h = cc (rw e at h)
verified_not_waiting preprocessed q e h = cc (rw e at h)
verified_not_waiting ocr_done q e h = cc (rw e at h)
verified_not_waiting parsed q e h = cc (rw e at h)
verified_not_waiting completeness_checked q e h = cc (rw e at h)
verified_not_waiting needs_review q e h = cc (rw e at h)
verified_not_waiting verified q e h = rw e refl
verified_not_waiting exported q e h = rw e refl

both : (a b : Bool) → (a && b) ≡ true → (a ≡ true) × (b ≡ true)
both true true h = (refl, refl)
both true false h = cc
both false b h = cc

none_waiting :
    (qs : List Question)
    → all is_verified qs ≡ true
    → count (λ q. same_status q.verification_status needs_review) qs ≡ 0
unfolding all count
none_waiting [] h = refl
none_waiting (q ∷ qs) h =
    let parts = both (is_verified q) (all is_verified qs) h in
    rw (verified_not_waiting q.verification_status q refl parts.0)
      (omega (arith, none_waiting qs parts.1))

module _ (render : Json → Text) (paper : Option Paper) (trend : List TrendPoint)
    (questions : List Question) where
  wrong_ids :
      (values : List Question) (id : Text)
      → count (λ i. id == i) (map (λ q. q.id) (filter_wrong_questions false values))
        ≡ count (λ q. is_wrong q.is_correct && id == q.id) values
  unfolding filter_wrong_questions
  wrong_ids values id =
      count-map (λ i. id == i) (λ q. q.id) _
      ∙ count-sort (by (λ q. (q.sequence, q.id)) numbered_order) (λ q. id == q.id)
          (select (λ q. is_wrong q.is_correct) values)
      ∙ count-select (λ q. id == q.id) (λ q. is_wrong q.is_correct) values

  -- The tallies of a report are those of the questions it is made from: total, answered, correct and
  -- wrong are counted, the rest of the total is unknown, the accuracy is the fraction of the correct
  -- among the answered, those that wait for review are counted, and an identifier is listed as
  -- wrong as often as questions with it were answered wrong.
  pub analyze_questions-IsTallied :
      IsTallied (analyze_questions render paper trend questions) questions
  unfolding analyze_questions
  analyze_questions-IsTallied =
      let order = by (λ q. (q.sequence, q.id)) numbered_order in
      let values = sort order questions in
      let h = metric-Counts (elim paper [ some p ↦ p.id | none ↦ txt "all" ]) values in
      record {
        total = h.total ∙ length-sort order questions;
        answered = h.answered ∙ count-sort order answerable questions;
        correct =
            h.correct ∙ count-sort order (λ q. answerable q && is_right q.is_correct) questions;
        wrong = h.wrong ∙ count-sort order (λ q. answerable q && is_wrong q.is_correct) questions;
        parts = h.parts;
        accuracy = h.accuracy;
        waiting = count-sort order (λ q. same_status q.verification_status needs_review) questions;
        wrong_listed = λ id.
            wrong_ids values id
            ∙ count-sort order (λ q. is_wrong q.is_correct && id == q.id) questions;
      }

  -- A report that calls its questions verified has none that waits for review.
  pub analyze_questions-verified :
      (analyze_questions render paper trend questions).verified ≡ true
      → (analyze_questions render paper trend questions).review_count ≡ 0
  unfolding analyze_questions
  analyze_questions-verified h =
      let values = sort (by (λ q. (q.sequence, q.id)) numbered_order) questions in
      none_waiting values (both (not (is_empty values)) (all is_verified values) h).1
