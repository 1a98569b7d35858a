-- ===== src/Examples/Samples.antt =====
-- Sample questions of a paper.
use dingzhen_notebook.Common.Strings.{strip}
use dingzhen_notebook.Common.{txt, none, some, [], ◌∷◌, true, false, ◌≡◌, refl}
use dingzhen_notebook.Json.{end}
use dingzhen_notebook.Capture.Session.{CaptureSession, created}
use dingzhen_notebook.Core.Question.{
  Question, QuestionOption, Evidence, EvidenceRegion, Paper, single_choice, answered, raw_captured,
  in_bounds, normalize, force_incomplete_to_review, missing_reasons,
}
use dingzhen_notebook.Core.Question.Laws.{IsValidated}

abbrev pub option_a : QuestionOption
option_a = record { label = txt "A"; content_md = txt "one" }

abbrev pub option_b : QuestionOption
option_b = record { label = txt "B"; content_md = txt "two" }

abbrev pub region : EvidenceRegion
region = record { image = txt "0001.png"; bbox = none; confidence = some 990_000 }

abbrev pub evidence : Evidence
evidence = record {
  question_frames = txt "0001.png" ∷ [];
  analysis_frames = txt "0002.png" ∷ [];
  field_regions = ("official_answer", region ∷ []) ∷ ("official_explanation_md", region ∷ []) ∷ [];
}

-- A question whose record is complete: answered, and wrong.
abbrev pub sample : Question
sample = record {
  id = txt "p1-q1";
  paper_id = txt "p1";
  sequence = 1;
  section = none;
  subsection = none;
  question_type = single_choice;
  stem_md = txt "1 + 1";
  options = option_a ∷ option_b ∷ [];
  media = [];
  user_answer = some (txt "A" ∷ []);
  official_answer = some (txt "B" ∷ []);
  is_correct = some false;
  attempt_state = answered;
  duration_seconds = some 12;
  official_explanation_md = some (txt "count");
  official_knowledge_points = [];
  source = none;
  ocr_confidence = some 990_000;
  parse_confidence = some 980_000;
  verification_status = raw_captured;
  review_reasons = [];
  evidence = evidence;
  ai_analysis = none;
}

-- The same with nothing official captured.
abbrev pub unofficial_sample : Question
unofficial_sample = record sample {
  id = txt "p1-q2";
  sequence = 2;
  official_answer = none;
  official_explanation_md = none;
}

abbrev pub paper : Paper
paper = record {
  id = txt "p1";
  title = txt "Paper";
  platform = txt "fenbi";
  exam_category = none;
  subject = none;
  started_at = none;
  completed_at = none;
  total_questions = 2;
  answered_questions = 2;
  correct_questions = 0;
  score = none;
  capture_status = raw_captured;
  created_at = 0;
  updated_at = 0;
}

pub sample-in_bounds : in_bounds sample ≡ true
unfolding in_bounds
sample-in_bounds = refl

pub sample-normal : normalize sample ≡ sample
unfolding normalize txt
sample-normal = refl

pub sample-IsValidated : IsValidated sample
unfolding force_incomplete_to_review missing_reasons txt strip
sample-IsValidated = record {
  bounded = sample-in_bounds;
  normal = sample-normal;
  flagged_if_incomplete = refl;
}

-- A capture session that has not begun.
abbrev pub capture_session : CaptureSession
capture_session = record {
  session_id = txt "capture_1";
  state_path = none;
  root = some (txt "/data");
  device_serial = none;
  status = created;
  current_question = 0;
  current_step = txt "start";
  frame_count = 0;
  screenshot_hashes = [];
  screenshot_paths = [];
  last_screenshot_hash = none;
  consecutive_unchanged = 0;
  error = none;
  metadata = end;
  created_at = 5;
  updated_at = 5;
}
