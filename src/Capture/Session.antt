-- ===== src/Capture/Session.antt =====
-- `CaptureSession` (packages/capture/session.py). The clock's reading is an argument `now` of each
-- operation, in microseconds; a raised `CaptureStateError` is a value, and leaves the session as
-- it was.
pub mod Secrets
pub mod States
pub mod Frames
pub mod Persistence
use dingzhen_notebook.Common.{
  ℕ, suc, ◌+◌, Bool, true, false, not, ◌||◌, Option, none, some, List, [], ◌∷◌, ◌++◌, Text, text_eq,
  ◌==◌, txt, if◌then◌else◌, is_empty, take,
}
use dingzhen_notebook.Common.Int.{ℤ, pos, negsuc}
use dingzhen_notebook.Json.{Json, Fields}

pub data CaptureSessionStatus : Type 0 where
  created : CaptureSessionStatus
  running : CaptureSessionStatus
  paused : CaptureSessionStatus
  stopped : CaptureSessionStatus
  completed : CaptureSessionStatus
  error : CaptureSessionStatus

unfoldable pub status_value : CaptureSessionStatus → Text
unfolding txt
status_value created = txt "created"
status_value running = txt "running"
status_value paused = txt "paused"
status_value stopped = txt "stopped"
status_value completed = txt "completed"
status_value error = txt "error"

pub record CaptureSession : Type 0 where
  pub session_id : Text
  pub state_path : Option Text
  pub root : Option Text
  pub device_serial : Option Text
  pub status : CaptureSessionStatus
  pub current_question : ℕ
  pub current_step : Text
  pub frame_count : ℕ
  pub screenshot_hashes : List Text
  pub screenshot_paths : List Text
  pub last_screenshot_hash : Option Text
  pub consecutive_unchanged : ℕ
  pub error : Option Text
  pub metadata : Fields
  pub created_at : ℕ
  pub updated_at : ℕ

pub record SessionCheckpoint : Type 0 where
  pub session_id : Text
  pub status : CaptureSessionStatus
  pub current_question : ℕ
  pub current_step : Text
  pub frame_count : ℕ
  pub last_screenshot_hash : Option Text
  pub consecutive_unchanged : ℕ
  pub updated_at : ℕ

unfoldable pub checkpoint : CaptureSession → SessionCheckpoint
checkpoint s = record {
  session_id = s.session_id;
  status = s.status;
  current_question = s.current_question;
  current_step = s.current_step;
  frame_count = s.frame_count;
  last_screenshot_hash = s.last_screenshot_hash;
  consecutive_unchanged = s.consecutive_unchanged;
  updated_at = s.updated_at;
}

-- `max(0, n)`
abbrev pub at_least_0 : ℤ → ℕ
at_least_0 (pos n) = n
at_least_0 (negsuc n) = 0

pub data Attempt : Type 0 where
  raised : Text → Attempt
  done : CaptureSession → Attempt

abbrev pub touch : ℕ → CaptureSession → CaptureSession
touch now s = record s { updated_at = now }

abbrev pub refuse : Text → CaptureSessionStatus → Attempt
refuse verb status =
    raised (txt "cannot " ++ verb ++ txt " a " ++ status_value status ++ txt " session")

-- `self.status = RUNNING; self.error = None; self.touch()`
abbrev pub run_now : ℕ → CaptureSession → Attempt
run_now now s = done (touch now (record s { status = running; error = none }))

unfoldable pub start : ℕ → CaptureSession → Attempt
start now s = elim s.status [
  | created ↦ run_now now s
  | paused ↦ run_now now s
  | _ ↦ refuse (txt "start") s.status
]

unfoldable pub pause : ℕ → CaptureSession → Attempt
pause now s = elim s.status [
  | created ↦ done (touch now (record s { status = paused }))
  | running ↦ done (touch now (record s { status = paused }))
  | paused ↦ done (touch now s)
  | _ ↦ refuse (txt "pause") s.status
]

unfoldable pub resume : ℕ → CaptureSession → Attempt
resume now s = elim s.status [
  | paused ↦ run_now now s
  | created ↦ run_now now s
  | _ ↦ refuse (txt "resume") s.status
]

-- `if reason: self.error = str(reason)`
abbrev pub note_reason : Option Text → Option Text → Option Text
note_reason none old = old
note_reason (some reason) old = if is_empty reason then old else some reason

unfoldable pub stop : ℕ → Option Text → CaptureSession → Attempt
stop now reason s = elim s.status [
  | completed ↦ done s
  | error ↦ done s
  | _ ↦ done (touch now (record s { status = stopped; error = note_reason reason s.error }))
]

unfoldable pub complete : ℕ → CaptureSession → Attempt
unfolding txt
complete now s = elim s.status [
  | error ↦ raised (txt "cannot complete a failed session")
  | _ ↦ done (touch now (record s { status = completed; error = none }))
]

unfoldable pub fail : ℕ → Text → CaptureSession → Attempt
fail now message s =
    done (touch now (record s { status = error; error = some (take 2000 message) }))

abbrev pub given {ℓ} : {A : Type ℓ} → Option A → A → A
given none old = old
given (some new) old = new

unfoldable pub set_progress : ℕ → Option ℤ → Option Text → CaptureSession → Attempt
set_progress now question step s = done (
    touch now (record s {
      current_question = elim question [ none ↦ s.current_question | some n ↦ at_least_0 n ];
      current_step = given step s.current_step;
    }))

-- `previous is None or previous != value`
abbrev pub differs : Option Text → Text → Bool
differs none value = true
differs (some previous) value = not (previous == value)

-- `changed`: the detector's answer, or else the comparison with the frame before
abbrev pub is_changed : Option Bool → Option Text → Text → Bool
is_changed none previous value = differs previous value
is_changed (some changed) previous value = changed

unfoldable pub record_screenshot : ℕ → Text → Option Text → Option Bool → CaptureSession → Attempt
record_screenshot now value path changed s = done (
    touch now (record s {
      frame_count = s.frame_count + 1;
      screenshot_hashes = s.screenshot_hashes ++ value ∷ [];
      screenshot_paths = elim path [
        | none ↦ s.screenshot_paths
        | some p ↦ s.screenshot_paths ++ p ∷ []
      ];
      last_screenshot_hash = some value;
      consecutive_unchanged =
          if is_changed changed s.last_screenshot_hash value
          then 0
          else s.consecutive_unchanged + 1;
    }))

-- The calls that a client makes, with the clock's reading at each.
pub data Call : Type 0 where
  call_start : ℕ → Call
  call_pause : ℕ → Call
  call_resume : ℕ → Call
  call_stop : ℕ → Option Text → Call
  call_complete : ℕ → Call
  call_fail : ℕ → Text → Call
  call_set_progress : ℕ → Option ℤ → Option Text → Call
  call_record_screenshot : ℕ → Text → Option Text → Option Bool → Call

unfoldable pub perform : Call → CaptureSession → Attempt
unfolding start pause resume stop complete fail set_progress record_screenshot
perform (call_start now) s = start now s
perform (call_pause now) s = pause now s
perform (call_resume now) s = resume now s
perform (call_stop now reason) s = stop now reason s
perform (call_complete now) s = complete now s
perform (call_fail now message) s = fail now message s
perform (call_set_progress now question step) s = set_progress now question step s
perform (call_record_screenshot now value path changed) s =
    record_screenshot now value path changed s

-- The session after a call: a refused call leaves it.
abbrev pub after : Attempt → CaptureSession → CaptureSession
after (raised message) s = s
after (done s') s = s'

unfoldable pub perform_all : List Call → CaptureSession → CaptureSession
unfolding perform
perform_all [] s = s
perform_all (c ∷ cs) s = perform_all cs (after (perform c s) s)
