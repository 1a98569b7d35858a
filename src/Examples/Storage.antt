-- ===== src/Examples/Storage.antt =====
-- The repository on a sequence of writes.
use dingzhen_notebook.Common.{
  txt, text_beq, text_eq, ◌==◌, if◌then◌else◌, none, some, List, [], ◌∷◌, true, false, ◌≡◌, refl,
}
use dingzhen_notebook.Common.Dict.{has_key, insert, lookup}
use dingzhen_notebook.Common.Strings.{strip}
use dingzhen_notebook.Core.Integrity.{transition_question}
use dingzhen_notebook.Core.Question.{Question}
use dingzhen_notebook.Core.Repository.{
  empty, upsert_question, get_question, found, review_queue, upsert_paper,
}
use dingzhen_notebook.Core.Repository.Invariant.{
  IsConsistent, Write, write_paper, write_question, remove_question, apply_all,
  apply_all-IsConsistent, assessed, IsStorable,
}
use dingzhen_notebook.Core.Repository.Reading.{get-upsert}
use dingzhen_notebook.Core.Repository.Queue.{IsQueue, review_queue-IsQueue}
use dingzhen_notebook.Examples.Samples.{sample, sample-in_bounds, sample-normal, paper}

abbrev storable : IsStorable true sample
storable = (sample-in_bounds, sample-normal)

abbrev writes : List Write
writes =
    write_paper 7 paper
    ∷ write_question true sample
    ∷ write_question false sample
    ∷ remove_question (txt "p1-q9")
    ∷ []

empty-IsConsistent : IsConsistent empty
unfolding IsConsistent
empty-IsConsistent = tt

apply_all-IsConsistent_example : IsConsistent (apply_all writes empty)
apply_all-IsConsistent_example = apply_all-IsConsistent writes empty empty-IsConsistent

there : has_key (assessed true sample).paper_id (upsert_paper 7 paper empty).1.papers ≡ true
unfolding upsert_paper transition_question txt text_beq insert lookup strip
there = refl

get-upsert_example :
    get_question (txt "p1-q1") (upsert_question true sample (upsert_paper 7 paper empty).1).2 ≡ (
      if txt "p1-q1" == (assessed true sample).id
      then found (assessed true sample)
      else get_question (txt "p1-q1") (upsert_paper 7 paper empty).1)
get-upsert_example =
    get-upsert true sample (upsert_paper 7 paper empty).1 (txt "p1-q1") storable there

review_queue-IsQueue_example :
    (queue : List Question) × (review_queue none (apply_all writes empty) ≡ some queue)
    × IsQueue none (apply_all writes empty) queue
review_queue-IsQueue_example =
    review_queue-IsQueue (apply_all writes empty)
      (apply_all-IsConsistent writes empty empty-IsConsistent) none
