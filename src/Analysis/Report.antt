-- ===== src/Analysis/Report.antt =====
-- The report and the trend of papers (packages/analysis/analyzer.py, models.py). A date is its ISO
-- text, which `iso` makes of an instant.
pub mod Laws
use dingzhen_notebook.Common.{
  ℕ, ◌+◌, Bool, true, false, not, ◌&&◌, Option, none, some, List, [], ◌∷◌, map, Text, text_eq, txt,
  if◌then◌else◌, is_empty, select, all, count, from_keys, String,
}
use dingzhen_notebook.Common.Dict.{Dict, lookup, insert}
use dingzhen_notebook.Common.Groups.{push}
use dingzhen_notebook.Common.Strings.{strip}
use dingzhen_notebook.Common.Sort.{sort, by, numbered_order, labelled_order, text_order}
use dingzhen_notebook.Json.{Json}
use dingzhen_notebook.Core.Question.{Question, Paper, needs_review}
use dingzhen_notebook.Core.Repository.{same_status}
use dingzhen_notebook.Analysis.Metric.{Metric, metric}
use dingzhen_notebook.Analysis.Tags.{get_error_tags}
use dingzhen_notebook.Analysis.Filters.{
  is_verified, filter_risk_questions, filter_wrong_questions, filter_repeated_wrong_questions,
}

-- `_MISSING`
unfoldable pub missing_group : Text
unfolding txt
missing_group = txt "未分类"

-- The groups of a question by its section.
unfoldable pub section_groups : Question → List Text
unfolding strip missing_group
section_groups q = elim q.section [
  | none ↦ missing_group ∷ []
  | some s ↦ (if is_empty (strip s) then missing_group else strip s) ∷ []
]

abbrev pub or_missing : List Text → List Text
or_missing [] = missing_group ∷ []
or_missing (s ∷ ss) = s ∷ ss

-- The groups of a question by its knowledge points.
unfoldable pub knowledge_groups : Question → List Text
unfolding select strip
knowledge_groups q =
    or_missing
      (map (λ s. strip s) (select (λ s. not (is_empty (strip s))) q.official_knowledge_points))

-- `for group in groups: d[group].append(question)`
unfoldable pub push_each :
    List Text → Question → Dict Text (List Question) → Dict Text (List Question)
unfolding push
push_each [] q d = d
push_each (k ∷ ks) q d = push_each ks q (push k q d)

unfoldable pub collect :
    (Question → List Text) → Dict Text (List Question) → List Question → Dict Text (List Question)
unfolding push_each from_keys
collect groups d [] = d
collect groups d (q ∷ qs) = collect groups (push_each (from_keys (groups q)) q d) qs

abbrev pub metrics : Dict Text (List Question) → Dict Text Metric
metrics [] = []
metrics ((k, qs) ∷ d) = (k, metric k qs) ∷ metrics d

unfoldable pub grouped_metrics : (Question → List Text) → List Question → Dict Text Metric
unfolding collect sort metric
grouped_metrics groups questions =
    metrics (sort (by (λ entry. entry.0) text_order) (collect groups [] questions))

pub record TrendPoint : Type 0 where
  pub paper_id : Text
  pub title : Text
  pub date : Option Text
  pub total : ℕ
  pub answered : ℕ
  pub correct : ℕ
  pub accuracy : Option (ℕ × ℕ)
  pub score : Option ℕ

pub record AnalysisReport : Type 0 where
  pub paper_id : Option Text
  pub title : Option Text
  pub total : ℕ
  pub answered : ℕ
  pub correct : ℕ
  pub wrong : ℕ
  pub unknown : ℕ
  pub accuracy : Option (ℕ × ℕ)
  pub verified : Bool
  pub review_count : ℕ
  pub module_stats : Dict Text Metric
  pub knowledge_stats : Dict Text Metric
  pub error_stats : Dict Text ℕ
  pub trend : List TrendPoint
  pub risk_question_ids : List Text
  pub wrong_question_ids : List Text
  pub repeated_wrong_question_ids : List Text

-- `Counter.update`
abbrev pub count_or_0 : Option ℕ → ℕ
count_or_0 none = 0
count_or_0 (some n) = n

unfoldable pub count_each : List Text → Dict Text ℕ → Dict Text ℕ
unfolding insert lookup
count_each [] d = d
count_each (k ∷ ks) d = count_each ks (insert k (count_or_0 (lookup k d) + 1) d)

module _ (iso : ℕ → Text) where
  unfoldable pub date_value : Paper → Option Text
  date_value p = elim p.completed_at [
    | some t ↦ some (iso t)
    | none ↦ elim p.started_at [ some t ↦ some (iso t) | none ↦ none ]
  ]

  unfoldable pub paper_point : Paper → List Question → TrendPoint
  unfolding metric date_value
  paper_point p questions =
      let m = metric p.id questions in
      record {
        paper_id = p.id;
        title = p.title;
        date = date_value p;
        total = m.total;
        answered = m.answered;
        correct = m.correct;
        accuracy = m.accuracy;
        score = p.score;
      }

  abbrev pub date_or_empty : Option Text → Text
  date_or_empty none = []
  date_or_empty (some s) = s

  -- Sorted by date and paper: a stable sort by the first of one by the last.
  unfoldable pub build_trend : List (Paper × List Question) → List TrendPoint
  unfolding sort paper_point
  build_trend papers = sort (by (λ point. date_or_empty point.date) text_order) (
      sort (by (λ point. point.paper_id) text_order)
        (map (λ entry. paper_point entry.0 entry.1) papers))

abbrev pub report_id : Option Paper → List Question → Option Text
report_id (some p) questions = some p.id
report_id none [] = none
report_id none (q ∷ qs) = some q.paper_id

abbrev pub report_title : Option Paper → Option Text
report_title (some p) = some p.title
report_title none = none

module _ (render : Json → Text) where
  unfoldable pub count_tags : List Question → Dict Text ℕ → Dict Text ℕ
  unfolding count_each get_error_tags
  count_tags [] d = d
  count_tags (q ∷ qs) d = count_tags qs (count_each (get_error_tags render q) d)

  unfoldable pub analyze_questions : Option Paper → List TrendPoint → List Question → AnalysisReport
  unfolding sort metric all count is_verified same_status grouped_metrics count_tags txt
      filter_risk_questions filter_wrong_questions filter_repeated_wrong_questions
  analyze_questions paper trend questions =
      let values = sort (by (λ q. (q.sequence, q.id)) numbered_order) questions in
      let overall = metric (elim paper [ some p ↦ p.id | none ↦ txt "all" ]) values in
      record {
        paper_id = report_id paper values;
        title = report_title paper;
        total = overall.total;
        answered = overall.answered;
        correct = overall.correct;
        wrong = overall.wrong;
        unknown = overall.unknown;
        accuracy = overall.accuracy;
        verified = not (is_empty values) && all is_verified values;
        review_count = count (λ q. same_status q.verification_status needs_review) values;
        module_stats = grouped_metrics section_groups values;
        knowledge_stats = grouped_metrics knowledge_groups values;
        error_stats = sort (by (λ entry. entry.0) text_order) (count_tags values []);
        trend = trend;
        risk_question_ids = map (λ q. q.id) (filter_risk_questions 50 false values);
        wrong_question_ids = map (λ q. q.id) (filter_wrong_questions false values);
        repeated_wrong_question_ids = map (λ q. q.id) (filter_repeated_wrong_questions values);
      }
