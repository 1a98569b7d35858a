-- ===== src/Core/Question.antt =====
-- packages/core/models.py: a question and a paper, the validators of a question, and assignment
-- to its fields under `validate_assignment`. Times are seconds, confidences are millionths.
pub mod Laws
use dingzhen_notebook.Common.{
  ℕ, Bool, true, false, ◌&&◌, Option, none, some, List, [], ◌∷◌, ◌++◌, map, String, string_eq, Text,
  select, not, is_empty, leb, if◌then◌else◌, from_keys, all,
}
use dingzhen_notebook.Common.Dict.{Dict}
use dingzhen_notebook.Common.Strings.{strip, tidy}
use dingzhen_notebook.Common.Int.{ℤ}
use dingzhen_notebook.Json.{Fields}

pub data PipelineStatus : Type 0 where
  raw_captured preprocessed ocr_done parsed completeness_checked needs_review verified exported :
      PipelineStatus

pub data QuestionType : Type 0 where
  single_choice multiple_choice true_false other : QuestionType

pub data AttemptState : Type 0 where
  answered unanswered unknown : AttemptState

-- `Option` of the source.
pub record QuestionOption : Type 0 where
  pub label : Text
  pub content_md : Text

pub record MediaItem : Type 0 where
  pub type : Text
  pub path : Text

-- The bound 1 of a confidence.
abbrev pub one : ℕ
one = 1_000_000

pub record EvidenceRegion : Type 0 where
  pub image : Text
  pub bbox : Option (ℤ × ℤ × ℤ × ℤ)
  pub confidence : Option ℕ

pub record Evidence : Type 0 where
  pub question_frames : List Text
  pub analysis_frames : List Text
  pub field_regions : Dict String (List EvidenceRegion)

pub record Question : Type 0 where
  pub id : Text
  pub paper_id : Text
  pub sequence : ℕ
  pub section : Option Text
  pub subsection : Option Text
  pub question_type : QuestionType
  pub stem_md : Text
  pub options : List QuestionOption
  pub media : List MediaItem
  pub user_answer : Option (List Text)
  pub official_answer : Option (List Text)
  pub is_correct : Option Bool
  pub attempt_state : AttemptState
  pub duration_seconds : Option ℕ
  pub official_explanation_md : Option Text
  pub official_knowledge_points : List Text
  pub source : Option Text
  pub ocr_confidence : Option ℕ
  pub parse_confidence : Option ℕ
  pub verification_status : PipelineStatus
  pub review_reasons : List String
  pub evidence : Evidence
  pub ai_analysis : Option Fields

pub record Paper : Type 0 where
  pub id : Text
  pub title : Text
  pub platform : Text
  pub exam_category : Option Text
  pub subject : Option Text
  pub started_at : Option ℕ
  pub completed_at : Option ℕ
  pub total_questions : ℕ
  pub answered_questions : ℕ
  pub correct_questions : ℕ
  pub score : Option ℕ
  pub capture_status : PipelineStatus
  pub created_at : ℕ
  pub updated_at : ℕ

-- `Option.normalize_label`
unfoldable pub normalize_label : QuestionOption → QuestionOption
unfolding tidy
normalize_label o = record o { label = tidy o.label }

-- `Question.normalize_answers`
unfoldable pub normalize_answers : Option (List Text) → Option (List Text)
unfolding select strip tidy
normalize_answers none = none
normalize_answers (some value) =
    some (map tidy (select (λ item. not (is_empty (strip item))) value))

-- `value or ""`
abbrev pub text_or_empty : Option Text → Text
text_or_empty none = []
text_or_empty (some s) = s

-- `not value`, of an optional list
abbrev pub none_or_empty {ℓ} : {A : Type ℓ} → Option (List A) → Bool
none_or_empty none = true
none_or_empty (some xs) = is_empty xs

abbrev pub is_none {ℓ} : {A : Type ℓ} → Option A → Bool
is_none none = true
is_none (some _) = false

abbrev pub add_if : Bool → String → List String → List String
add_if c s rest = if c then s ∷ rest else rest

unfoldable pub blank_explanation : Question → Bool
blank_explanation q = is_empty (strip (text_or_empty q.official_explanation_md))

-- The `reasons` of `force_incomplete_to_review`
unfoldable pub missing_reasons : Question → List String
unfolding blank_explanation
missing_reasons q = add_if (is_none q.user_answer) "missing_user_answer" (
    add_if (none_or_empty q.official_answer) "missing_official_answer"
      (add_if (blank_explanation q) "missing_official_explanation" []))

-- `Question.force_incomplete_to_review`
unfoldable pub force_incomplete_to_review : Question → Question
unfolding missing_reasons from_keys
force_incomplete_to_review q = if is_empty (missing_reasons q) then q else record q {
  verification_status = needs_review;
  review_reasons = from_keys (q.review_reasons ++ missing_reasons q);
}

unfoldable pub normalize : Question → Question
unfolding normalize_answers normalize_label
normalize q = record q {
  options = map normalize_label q.options;
  user_answer = normalize_answers q.user_answer;
  official_answer = normalize_answers q.official_answer;
}

abbrev pub confidence_fits : Option ℕ → Bool
confidence_fits none = true
confidence_fits (some c) = leb c one

-- The confidences of the evidence.
unfoldable pub regions_fit : Dict String (List EvidenceRegion) → Bool
unfolding all
regions_fit [] = true
regions_fit ((name, regions) ∷ d) =
    all (λ region. confidence_fits region.confidence) regions && regions_fit d

-- The bounds of the fields: `ge=1` for the sequence, `ge=0, le=1` for the confidences.
unfoldable pub in_bounds : Question → Bool
unfolding regions_fit
in_bounds q =
    leb 1 q.sequence
    && (confidence_fits q.ocr_confidence
        && (confidence_fits q.parse_confidence && regions_fit q.evidence.field_regions))

-- `Question.model_validate` of a payload with the types of the fields; `none` is the
-- `ValidationError`.
unfoldable pub model_validate : Question → Option Question
unfolding in_bounds normalize force_incomplete_to_review
model_validate q = if in_bounds q then some (force_incomplete_to_review (normalize q)) else none

-- Assignment to a field runs the model validator again.
unfoldable pub assign_status : PipelineStatus → Question → Question
unfolding force_incomplete_to_review
assign_status s q = force_incomplete_to_review (record q { verification_status = s })

unfoldable pub assign_reasons : List String → Question → Question
unfolding force_incomplete_to_review
assign_reasons rs q = force_incomplete_to_review (record q { review_reasons = rs })

unfoldable pub assign_ai_analysis : Option Fields → Question → Question
unfolding force_incomplete_to_review
assign_ai_analysis d q = force_incomplete_to_review (record q { ai_analysis = d })
