-- ===== src/Review.antt =====
-- packages/review/scheduler.py: review stages and the spaced review plan. A date is the number of
-- its day, and `as_of` the day of the call; ISO dates compare as their days do.
pub mod Plan
pub mod Stages
use dingzhen_notebook.Common.{
  ℕ, zero, suc, ◌+◌, Bool, true, false, ◌&&◌, Option, none, some, List, [], ◌∷◌, map, String,
  string_eq, Text, txt, nat_beq, leb, if◌then◌else◌, take, length, max,
}
use dingzhen_notebook.Common.Int.{ℤ, pos, negsuc}
use dingzhen_notebook.Common.Dict.{Dict}
use dingzhen_notebook.Common.Groups.{group_from, get_list, total_items, map_values}
use dingzhen_notebook.Common.Sort.{sort, by, number_first, text_order, Order}
use dingzhen_notebook.Json.{Json, integer, Fields, end, get_or, to_int}
use dingzhen_notebook.Core.Question.{Question}

pub data ReviewStage : Type 0 where
  preview first_pass second_pass interval mastered : ReviewStage

-- The value of the `StrEnum` member.
abbrev pub value : ReviewStage → String
value preview = "preview"
value first_pass = "first_pass"
value second_pass = "second_pass"
value interval = "interval"
value mastered = "mastered"

-- `int(data.get(key, 0))` where it is positive, and 0 where it is not or raises.
abbrev pub positive : Option ℤ → ℕ
positive none = 0
positive (some (pos n)) = n
positive (some (negsuc n)) = 0

unfoldable pub counted : Text → Fields → ℕ
unfolding to_int get_or
counted key fields = positive (to_int (get_or key (integer (pos 0)) fields))

-- `question.ai_analysis or {}`
abbrev pub analysis_of : Question → Fields
analysis_of q = elim q.ai_analysis [ none ↦ end | some fields ↦ fields ]

-- The first positive count.
abbrev pub or_else : ℕ → ℕ → ℕ
or_else zero n = n
or_else (suc m) n = suc m

-- `_history_wrong_count`
unfoldable pub history_wrong_count : Question → ℕ
unfolding counted txt
history_wrong_count q =
    let fields = analysis_of q in
    or_else (counted (txt "wrong_attempts") fields)
      (or_else (counted (txt "wrong_count") fields) (counted (txt "repeat_count") fields))

-- The stage by the result: `is_correct`, the number of wrong attempts, whether an answer is known.
unfoldable pub stage_of : Option Bool → ℕ → Option (List Text) → ReviewStage
stage_of (some true) zero answer = mastered
stage_of (some true) (suc n) none = preview
stage_of (some true) (suc n) (some a) = first_pass
stage_of (some false) n answer =
    let wrongs = max 1 n in
    if leb 3 wrongs then interval else if nat_beq wrongs 2 then second_pass else first_pass
stage_of none n none = preview
stage_of none n (some a) = first_pass

unfoldable pub classify_stage : Question → ReviewStage
unfolding stage_of history_wrong_count
classify_stage q = stage_of q.is_correct (history_wrong_count q) q.user_answer

-- `due_offsets`
unfoldable pub due_offset : ReviewStage → ℕ
due_offset preview = 0
due_offset first_pass = 1
due_offset second_pass = 3
due_offset interval = 7
due_offset mastered = 30

pub record Item : Type 0 where
  pub id : Text
  pub sequence : ℕ
  pub stem : Text
  pub is_correct : Option Bool
  pub knowledge_points : List Text
  pub due_date : ℕ
  pub stage : String

unfoldable pub item : ℕ → Question → Item
unfolding classify_stage due_offset
item now q =
    let stage = classify_stage q in
    record {
      id = q.id;
      sequence = q.sequence;
      stem = take 120 q.stem_md;
      is_correct = q.is_correct;
      knowledge_points = q.official_knowledge_points;
      due_date = now + due_offset stage;
      stage = value stage;
    }

-- The sort key `(due_date, sequence, id)`
abbrev pub item_order : Order Item
item_order = by (λ i. (i.due_date, (i.sequence, i.id))) (number_first (number_first text_order))

pub record ReviewPlan : Type 0 where
  pub total_questions : ℕ
  pub tracks : ReviewStage → List Item
  pub summary : ReviewStage → ℕ

unfoldable pub buckets : ℕ → List Question → Dict String (List Item)
unfolding group_from item
buckets now questions = group_from (λ q. value (classify_stage q)) (item now) [] questions

unfoldable pub build_review_plan : ℕ → List Question → ReviewPlan
unfolding buckets map_values sort total_items get_list
build_review_plan now questions =
    let sorted = map_values (sort item_order) (buckets now questions) in
    record {
      total_questions = total_items sorted;
      tracks = λ stage. get_list (value stage) sorted;
      summary = λ stage. length (get_list (value stage) sorted);
    }
