-- ===== src/Capture/Session/States.antt =====
-- The session's state machine: which states a client's calls can lead to.
use dingzhen_notebook.Common.{ap, ℕ, Text, ◌≡◌, refl, Bool, true, false, List, [], ◌∷◌, Option}
use dingzhen_notebook.Common.Int.{ℤ}
use dingzhen_notebook.Capture.Session.{
  CaptureSessionStatus, created, running, paused, stopped, completed, error, CaptureSession, Call,
  call_start, call_pause, call_resume, call_stop, call_complete, call_fail, call_set_progress,
  call_record_screenshot, perform, after, perform_all, start, pause, resume, stop, complete, fail,
  set_progress, record_screenshot,
}

-- Neither running, nor able to run again.
abbrev pub is_over : CaptureSessionStatus → Bool
is_over stopped = true
is_over completed = true
is_over error = true
is_over _ = false

-- What each call is meant to do to the state. What is refused leaves it.
pub data Step : Call → CaptureSessionStatus → CaptureSessionStatus → Type 0 where
  begin : {now : ℕ} → Step (call_start now) created running
  start_again : {now : ℕ} → Step (call_start now) running running
  continue : {now : ℕ} → Step (call_start now) paused running
  start_over : {now : ℕ} {s : CaptureSessionStatus} → is_over s ≡ true → Step (call_start now) s s
  hold : {now : ℕ} → Step (call_pause now) created paused
  interrupt : {now : ℕ} → Step (call_pause now) running paused
  pause_again : {now : ℕ} → Step (call_pause now) paused paused
  pause_over : {now : ℕ} {s : CaptureSessionStatus} → is_over s ≡ true → Step (call_pause now) s s
  resume_created : {now : ℕ} → Step (call_resume now) created running
  resume_again : {now : ℕ} → Step (call_resume now) running running
  resume_paused : {now : ℕ} → Step (call_resume now) paused running
  resume_over : {now : ℕ} {s : CaptureSessionStatus} → is_over s ≡ true → Step (call_resume now) s s
  stop_open :
      {now : ℕ} {reason : Option Text} {s : CaptureSessionStatus}
      → is_over s ≡ false
      → Step (call_stop now reason) s stopped
  stop_over :
      {now : ℕ} {reason : Option Text} {s : CaptureSessionStatus}
      → is_over s ≡ true
      → Step (call_stop now reason) s s
  finish_open :
      {now : ℕ} {s : CaptureSessionStatus}
      → is_over s ≡ false
      → Step (call_complete now) s completed
  finish_stopped : {now : ℕ} → Step (call_complete now) stopped completed
  finish_again : {now : ℕ} → Step (call_complete now) completed completed
  finish_refused : {now : ℕ} → Step (call_complete now) error error
  break_off :
      {now : ℕ} {message : Text} {s : CaptureSessionStatus} → Step (call_fail now message) s error
  progress :
      {now : ℕ} {question : Option ℤ} {step : Option Text} {s : CaptureSessionStatus}
      → Step (call_set_progress now question step) s s
  screenshot :
      {now : ℕ} {value : Text} {path : Option Text} {changed : Option Bool}
      {s : CaptureSessionStatus}
      → Step (call_record_screenshot now value path changed) s s

-- Calls in a row, each with its step.
pub data Steps : List Call → CaptureSessionStatus → CaptureSessionStatus → Type 0 where
  here : {s : CaptureSessionStatus} → Steps [] s s
  next :
      {c : Call} {cs : List Call} {s t u : CaptureSessionStatus}
      → Step c s t
      → Steps cs t u
      → Steps (c ∷ cs) s u

start-Step :
    (now : ℕ) (st : CaptureSessionStatus) (s : CaptureSession)
    → s.status ≡ st
    → Step (call_start now) st (after (start now s) s).status
unfolding start
start-Step now created s e = rw e begin
start-Step now running s e = rw e start_again
start-Step now paused s e = rw e continue
start-Step now stopped s e = rw e (start_over refl)
start-Step now completed s e = rw e (start_over refl)
start-Step now error s e = rw e (start_over refl)

pause-Step :
    (now : ℕ) (st : CaptureSessionStatus) (s : CaptureSession)
    → s.status ≡ st
    → Step (call_pause now) st (after (pause now s) s).status
unfolding pause
pause-Step now created s e = rw e hold
pause-Step now running s e = rw e interrupt
pause-Step now paused s e = rw e pause_again
pause-Step now stopped s e = rw e (pause_over refl)
pause-Step now completed s e = rw e (pause_over refl)
pause-Step now error s e = rw e (pause_over refl)

resume-Step :
    (now : ℕ) (st : CaptureSessionStatus) (s : CaptureSession)
    → s.status ≡ st
    → Step (call_resume now) st (after (resume now s) s).status
unfolding resume
resume-Step now created s e = rw e resume_created
resume-Step now running s e = rw e resume_again
resume-Step now paused s e = rw e resume_paused
resume-Step now stopped s e = rw e (resume_over refl)
resume-Step now completed s e = rw e (resume_over refl)
resume-Step now error s e = rw e (resume_over refl)

stop-Step :
    (now : ℕ) (reason : Option Text) (st : CaptureSessionStatus) (s : CaptureSession)
    → s.status ≡ st
    → Step (call_stop now reason) st (after (stop now reason s) s).status
unfolding stop
stop-Step now reason created s e = rw e (stop_open refl)
stop-Step now reason running s e = rw e (stop_open refl)
stop-Step now reason paused s e = rw e (stop_open refl)
stop-Step now reason stopped s e = rw e (stop_over refl)
stop-Step now reason completed s e = rw e (stop_over refl)
stop-Step now reason error s e = rw e (stop_over refl)

complete-Step :
    (now : ℕ) (st : CaptureSessionStatus) (s : CaptureSession)
    → s.status ≡ st
    → Step (call_complete now) st (after (complete now s) s).status
unfolding complete
complete-Step now created s e = rw e (finish_open refl)
complete-Step now running s e = rw e (finish_open refl)
complete-Step now paused s e = rw e (finish_open refl)
complete-Step now stopped s e = rw e finish_stopped
complete-Step now completed s e = rw e finish_again
complete-Step now error s e = rw e finish_refused

-- Every call does what is meant.
perform-Step : (c : Call) (s : CaptureSession) → Step c s.status (after (perform c s) s).status
unfolding perform fail set_progress record_screenshot
perform-Step (call_start now) s = start-Step now s.status s refl
perform-Step (call_pause now) s = pause-Step now s.status s refl
perform-Step (call_resume now) s = resume-Step now s.status s refl
perform-Step (call_stop now reason) s = stop-Step now reason s.status s refl
perform-Step (call_complete now) s = complete-Step now s.status s refl
perform-Step (call_fail now message) s = break_off
perform-Step (call_set_progress now question step) s = progress
perform-Step (call_record_screenshot now value path changed) s = screenshot

-- Any calls take a session through the states that each of them is meant to lead to, refused calls
-- leaving the state as it is.
pub perform_all-Steps :
    (cs : List Call) (s : CaptureSession) → Steps cs s.status (perform_all cs s).status
unfolding perform_all
perform_all-Steps [] s = here
perform_all-Steps (c ∷ cs) s =
    next (perform-Step c s) (perform_all-Steps cs (after (perform c s) s))

Step-over :
    {c : Call} {s t : CaptureSessionStatus} → Step c s t → is_over s ≡ true → is_over t ≡ true
Step-over begin over = cc
Step-over start_again over = over
Step-over continue over = cc
Step-over (start_over h) over = over
Step-over hold over = cc
Step-over interrupt over = cc
Step-over pause_again over = over
Step-over (pause_over h) over = over
Step-over resume_created over = cc
Step-over resume_again over = over
Step-over resume_paused over = cc
Step-over (resume_over h) over = over
Step-over (stop_open h) over = refl
Step-over (stop_over h) over = over
Step-over (finish_open h) over = refl
Step-over finish_stopped over = refl
Step-over finish_again over = refl
Step-over finish_refused over = over
Step-over break_off over = refl
Step-over progress over = over
Step-over screenshot over = over

Steps-over :
    {cs : List Call} {s t : CaptureSessionStatus}
    → Steps cs s t
    → is_over s ≡ true
    → is_over t ≡ true
Steps-over here over = over
Steps-over (next st rest) over = Steps-over rest (Step-over st over)

Step-error : {c : Call} {s t : CaptureSessionStatus} → Step c s t → s ≡ error → t ≡ error
Step-error begin e = cc
Step-error start_again e = e
Step-error continue e = cc
Step-error (start_over h) e = e
Step-error hold e = cc
Step-error interrupt e = cc
Step-error pause_again e = e
Step-error (pause_over h) e = e
Step-error resume_created e = cc
Step-error resume_again e = e
Step-error resume_paused e = cc
Step-error (resume_over h) e = e
Step-error (stop_open h) e = cc (ap is_over e)
Step-error (stop_over h) e = e
Step-error (finish_open h) e = cc (ap is_over e)
Step-error finish_stopped e = cc
Step-error finish_again e = e
Step-error finish_refused e = e
Step-error break_off e = refl
Step-error progress e = e
Step-error screenshot e = e

Steps-error : {cs : List Call} {s t : CaptureSessionStatus} → Steps cs s t → s ≡ error → t ≡ error
Steps-error here e = e
Steps-error (next st rest) e = Steps-error rest (Step-error st e)

-- No calls bring a stopped, completed or failed session back to life: it stays in one of these
-- three states.
pub perform_all-over :
    (cs : List Call) (s : CaptureSession)
    → is_over s.status ≡ true
    → is_over (perform_all cs s).status ≡ true
perform_all-over cs s h = Steps-over (perform_all-Steps cs s) h

-- A failed session stays failed, whatever calls follow.
pub perform_all-error :
    (cs : List Call) (s : CaptureSession) → s.status ≡ error → (perform_all cs s).status ≡ error
perform_all-error cs s h = Steps-error (perform_all-Steps cs s) h
