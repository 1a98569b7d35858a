-- ===== src/Ai/Schedule.antt =====
-- `deterministic_review_schedule` (packages/ai/service.py). A date is the number of its day.
use dingzhen_notebook.Common.{
  ℕ, ◌+◌, Bool, true, false, not, Option, none, some, List, [], ◌∷◌, Text, txt, if◌then◌else◌,
  nat_beq,
}
use dingzhen_notebook.Common.Int.{ℤ, pos, negsuc}
use dingzhen_notebook.Json.{Json, null, boolean, integer, obj, Fields, get_or, truthy, to_int}
use dingzhen_notebook.Ai.Payload.{find_questions, safe_value}

pub record ScheduleEntry : Type 0 where
  pub question_id : Json
  pub interval_days : ℕ
  pub due_date : ℕ
  pub reason : Text

-- `{0: 3, 1: 7, 2: 14, 3: 30}.get(reviews, 30)`
unfoldable pub reinforced_interval : ℤ → ℕ
reinforced_interval (pos n) =
    if nat_beq n 0 then 3 else if nat_beq n 1 then 7 else if nat_beq n 2 then 14 else 30
reinforced_interval (negsuc n) = 30

abbrev pub json_true : Json → Bool
json_true (boolean b) = b
json_true _ = false

abbrev pub json_false : Json → Bool
json_false (boolean b) = not b
json_false _ = false

abbrev pub json_null : Json → Bool
json_null null = true
json_null _ = false

unfoldable pub schedule_entry : ℕ → Fields → ℤ → ScheduleEntry
unfolding get_or txt reinforced_interval
schedule_entry base d reviews =
    let is_correct = get_or (txt "is_correct") null d in
    let interval = if json_true is_correct then reinforced_interval reviews else 1 in
    record {
      question_id = get_or (txt "id") null d;
      interval_days = interval;
      due_date = base + interval;
      reason = if json_false is_correct then txt "wrong" else txt "reinforce";
    }

-- `int(payload.get("review_count", payload.get("revision_count", 0)) or 0)`
unfoldable pub previous_reviews : Fields → Option ℤ
unfolding get_or txt truthy to_int
previous_reviews d =
    let v = get_or (txt "review_count") (get_or (txt "revision_count") (integer (pos 0)) d) d in
    if truthy v then to_int v else some (pos 0)

-- The entries of the answered questions; `none` is the `ValueError` of a review count.
unfoldable pub schedule_all : ℕ → List Json → Option (List ScheduleEntry)
unfolding safe_value get_or txt previous_reviews schedule_entry
schedule_all base [] = some []
schedule_all base (v ∷ vs) = elim (safe_value v) [
  | obj d ↦
      if json_null (get_or (txt "user_answer") null d)
      then schedule_all base vs
      else elim (previous_reviews d) [
        | none ↦ none
        | some reviews ↦ elim (schedule_all base vs) [
          | none ↦ none
          | some entries ↦ some (schedule_entry base d reviews ∷ entries)
        ]
      ]
  | _ ↦ schedule_all base vs
]

unfoldable pub deterministic_review_schedule : ℕ → Json → Option (List ScheduleEntry)
unfolding schedule_all find_questions
deterministic_review_schedule base questions = schedule_all base (find_questions questions)
