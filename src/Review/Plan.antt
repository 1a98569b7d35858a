-- ===== src/Review/Plan.antt =====
-- The review plan is a partition of the questions, each track in order.
use mathlib.Core.List.{Perm}
use dingzhen_notebook.Common.{
  ℕ, ◌+◌, ◌≡◌, refl, ap, ◌∙◌, Bool, List, [], ◌∷◌, map, string_eq, ◌==◌, length, arith, select,
  count, length-select, if◌then◌else◌,
}
use dingzhen_notebook.Common.Groups.{
  get_list, total_items, get_list-group_from, get_list-map_values, total-group_from,
  total-map_values,
}
use dingzhen_notebook.Common.Sort.{sort, IsSorted, sort-IsSorted, sort-perm, length-sort}
use dingzhen_notebook.Core.Question.{Question}
use dingzhen_notebook.Review.{
  ReviewStage, preview, first_pass, second_pass, interval, mastered, value, classify_stage, Item,
  item, item_order, ReviewPlan, buckets, build_review_plan,
}

-- The questions of a stage, as items, in the order given.
abbrev pub of_stage : ℕ → List Question → ReviewStage → List Item
of_stage now questions stage =
    map (item now) (select (λ q. value stage == value (classify_stage q)) questions)

module _ (now : ℕ) (questions : List Question) where
  track_lem :
      (stage : ReviewStage)
      → (build_review_plan now questions).tracks stage
        ≡ sort item_order (of_stage now questions stage)
  unfolding build_review_plan buckets sort get_list
  track_lem stage =
      get_list-map_values (sort item_order) refl (value stage) (buckets now questions)
      ∙ ap (sort item_order) (
          get_list-group_from (λ q. value (classify_stage q)) (item now) (value stage) [] questions)

  total_lem : (build_review_plan now questions).total_questions ≡ length questions
  unfolding build_review_plan buckets total_items
  total_lem = omega (
    arith,
    total-map_values (sort item_order) (length-sort item_order) (buckets now questions),
    total-group_from (λ q. value (classify_stage q)) (item now) [] questions,
  )

-- How many questions stand in each stage.
abbrev in_stage : ReviewStage → Question → Bool
in_stage stage q = value stage == value (classify_stage q)

one_stage :
    (s : ReviewStage)
    → (if value preview == value s then 1 else 0)
        + (if value first_pass == value s then 1 else 0)
        + (if value second_pass == value s then 1 else 0)
        + (if value interval == value s then 1 else 0)
        + (if value mastered == value s then 1 else 0)
      ≡ 1
one_stage preview = refl
one_stage first_pass = refl
one_stage second_pass = refl
one_stage interval = refl
one_stage mastered = refl

count-stages :
    (qs : List Question)
    → count (in_stage preview) qs
        + count (in_stage first_pass) qs
        + count (in_stage second_pass) qs
        + count (in_stage interval) qs
        + count (in_stage mastered) qs
      ≡ length qs
unfolding count
count-stages [] = refl
count-stages (q ∷ qs) = omega (arith, one_stage (classify_stage q), count-stages qs)

length-map-item : (now : ℕ) (qs : List Question) → length (map (item now) qs) ≡ length qs
length-map-item now [] = refl
length-map-item now (q ∷ qs) = omega (arith, length-map-item now qs)

-- Each track holds the items of its stage, in the order of date, sequence and identifier, the
-- summary counts them, and together they are all of the questions.
pub record IsPartition (now : ℕ) (questions : List Question) (plan : ReviewPlan) : Type 0 where
  pub held : (stage : ReviewStage) → Perm (plan.tracks stage) (of_stage now questions stage)
  pub ordered : (stage : ReviewStage) → IsSorted item_order (plan.tracks stage)
  pub counted : (stage : ReviewStage) → plan.summary stage ≡ length (plan.tracks stage)
  pub total : plan.total_questions ≡ length questions
  pub summed :
      plan.summary preview
        + plan.summary first_pass
        + plan.summary second_pass
        + plan.summary interval
        + plan.summary mastered
      ≡ plan.total_questions

module _ (now : ℕ) (questions : List Question) where
  summary_lem :
      (stage : ReviewStage)
      → (build_review_plan now questions).summary stage ≡ count (in_stage stage) questions
  unfolding build_review_plan
  summary_lem stage =
      ap (λ l. length l) (track_lem now questions stage)
      ∙ length-sort item_order (of_stage now questions stage)
      ∙ length-map-item now (select (in_stage stage) questions)
      ∙ length-select (in_stage stage) questions

  counted_lem :
      (stage : ReviewStage)
      → (build_review_plan now questions).summary stage
        ≡ length ((build_review_plan now questions).tracks stage)
  unfolding build_review_plan
  counted_lem stage = refl

  -- The review plan partitions the questions: each question lands in the track of its stage and in
  -- no other, every track is sorted by date, sequence and identifier, and the counts of the
  -- summary add up to the number of questions.
  pub build_review_plan-IsPartition : IsPartition now questions (build_review_plan now questions)
  build_review_plan-IsPartition = record {
    held = λ stage. rw (track_lem now questions stage) (sort-perm item_order _);
    ordered = λ stage. rw (track_lem now questions stage) (sort-IsSorted item_order _);
    counted = counted_lem;
    total = total_lem now questions;
    summed = omega (
      arith,
      summary_lem preview,
      summary_lem first_pass,
      summary_lem second_pass,
      summary_lem interval,
      summary_lem mastered,
      count-stages questions,
      total_lem now questions,
    );
  }
