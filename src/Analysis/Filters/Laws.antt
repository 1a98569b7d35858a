-- ===== src/Analysis/Filters/Laws.antt =====
-- What the filters select: no wrong question escapes the risk list, and a repeated mistake is one.
use dingzhen_notebook.Common.{
  ◌+◌, ◌-◌, ◌≡◌, refl, ap, ◌∙◌, Bool, true, false, ◌&&◌, List, [], ◌∷◌, Text, text_eq, ◌==◌,
  if◌then◌else◌, select, count, All, arith, Bool-cases, inl, inr, leb, min,
}
use dingzhen_notebook.Common.Dict.{Dict, insert}
use dingzhen_notebook.Common.Sort.{
  sort, by, numbered_order, labelled_order, text_order, number_first, All-sort, count-sort,
}
use dingzhen_notebook.Core.Question.{Question}
use dingzhen_notebook.Analysis.Metric.{is_wrong}
use dingzhen_notebook.Analysis.Filters.{
  is_repeated, index_by_id, entries, filter_repeated_wrong_questions, risk_score,
  filter_risk_questions, when,
}

module _ (P : Question → Type 0) where
  All-insert :
      (k : Text) (q : Question) (d : Dict Text Question)
      → P q
      → All P (entries d)
      → All P (entries (insert k q d))
  unfolding insert
  All-insert k q [] h hs = (h, tt)
  All-insert k q ((j, r) ∷ d) h hs = elim (Bool-cases (k == j)) [
    | inl same ↦ rw same (h, hs.1)
    | inr other ↦ rw other (hs.0, All-insert k q d h hs.1)
  ]

  All-index_by_id :
      (d : Dict Text Question) (qs : List Question)
      → All P (entries d)
      → All P qs
      → All P (entries (index_by_id d qs))
  unfolding index_by_id
  All-index_by_id d [] h hs = h
  All-index_by_id d (q ∷ qs) h hs =
      All-index_by_id (insert q.id q d) qs (All-insert q.id q d hs.0 h) hs.1

abbrev pub IsMistake : Question → Type 0
IsMistake q = is_wrong q.is_correct ≡ true

first_holds : (a b : Bool) → (a && b) ≡ true → a ≡ true
first_holds true b h = refl
first_holds false b h = cc

mistakes_of : (questions qs : List Question) → All IsMistake (select (is_repeated questions) qs)
unfolding select is_repeated
mistakes_of questions [] = tt
mistakes_of questions (q ∷ qs) = elim (Bool-cases (is_repeated questions q)) [
  | inl held ↦ rw held (first_holds (is_wrong q.is_correct) _ held, mistakes_of questions qs)
  | inr fails ↦ rw fails (mistakes_of questions qs)
]

-- Every question listed as a repeated mistake was answered wrong in the record at hand.
pub filter_repeated_wrong_questions-IsMistake :
    (questions : List Question) → All IsMistake (filter_repeated_wrong_questions questions)
unfolding filter_repeated_wrong_questions
filter_repeated_wrong_questions-IsMistake questions =
    let repeated = select (is_repeated questions) questions in
    let unique = entries (index_by_id [] repeated) in
    let by_id = by (λ q. q.id) text_order in
    All-sort (by (λ q. (q.paper_id, q.sequence)) labelled_order) IsMistake (sort by_id unique) (
      All-sort by_id IsMistake unique
        (All-index_by_id IsMistake [] repeated tt (mistakes_of questions questions)))

mistake_score :
    (b c d e : Bool) → leb 50 (min 100 (55 + when b 20 + when c 30 + when d 15 + when e 20)) ≡ true
mistake_score b c d e = ground arith

risk_score-mistake : (q : Question) → is_wrong q.is_correct ≡ true → leb 50 (risk_score q) ≡ true
unfolding risk_score
risk_score-mistake q h = rw h (mistake_score _ _ _ _)

count-select_implied :
    (p r : Question → Bool)
    → ((q : Question) → p q ≡ true → r q ≡ true)
    → (qs : List Question) → count p (select r qs) ≡ count p qs
unfolding select count
count-select_implied p r h [] = refl
count-select_implied p r h (q ∷ qs) = elim (Bool-cases (p q)) [
  | inl held ↦ rw (h q held) (ap (λ n. (if p q then 1 else 0) + n) (count-select_implied p r h qs))
  | inr fails ↦ elim (Bool-cases (r q)) [
    | inl kept ↦ rw kept (ap (λ n. (if p q then 1 else 0) + n) (count-select_implied p r h qs))
    | inr dropped ↦ rw dropped (rw fails (omega (arith, count-select_implied p r h qs)))
  ]
]

-- With the default threshold no question that was answered wrong escapes the risk list: it holds
-- as many of them as the questions do.
pub filter_risk_questions-mistakes :
    (questions : List Question)
    → count (λ q. is_wrong q.is_correct) (filter_risk_questions 50 false questions)
      ≡ count (λ q. is_wrong q.is_correct) questions
unfolding filter_risk_questions
filter_risk_questions-mistakes questions =
    count-sort (by (λ q. (100 - risk_score q, (q.sequence, q.id))) (number_first numbered_order))
      (λ q. is_wrong q.is_correct) (select (λ q. leb 50 (risk_score q)) questions)
    ∙ count-select_implied (λ q. is_wrong q.is_correct) (λ q. leb 50 (risk_score q))
        risk_score-mistake questions
