-- ===== src/Capture/Session/Frames.antt =====
-- What the frame counters of a session say about its recorded screenshots.
use dingzhen_notebook.Common.{
  ℕ, Text, suc, ◌+◌, ◌≤◌, ◌≡◌, refl, sym, ap, Bool, true, false, Bool-cases, inl, inr, List, [],
  ◌∷◌, ◌++◌, Option, none, some, length, length-append, text_eq, ◌==◌, ==_iff, arith, if◌then◌else◌,
}
use dingzhen_notebook.Capture.Session.{
  CaptureSessionStatus, created, running, paused, stopped, completed, error, CaptureSession, Call,
  call_start, call_pause, call_resume, call_stop, call_complete, call_fail, call_set_progress,
  call_record_screenshot, perform, after, perform_all, start, pause, resume, stop, complete, fail,
  set_progress, record_screenshot, is_changed, differs,
}

-- The last item.
abbrev pub last : List Text → Option Text
last [] = none
last (x ∷ xs) = elim (last xs) [ none ↦ some x | some y ↦ some y ]

last-append : (xs : List Text) (y : Text) → last (xs ++ y ∷ []) ≡ some y
last-append [] y = refl
last-append (x ∷ xs) y = rw (last-append xs y)

-- The counters agree with the recorded lists.
pub record IsCounted (s : CaptureSession) : Type 0 where
  pub frames : s.frame_count ≡ length s.screenshot_hashes
  pub paths : length s.screenshot_paths ≤ s.frame_count
  pub newest : s.last_screenshot_hash ≡ last s.screenshot_hashes
  pub unchanged : s.consecutive_unchanged ≤ s.frame_count

-- Only the frame fields matter.
of_frames :
    {s : CaptureSession} {st : CaptureSessionStatus} {message : Option Text} {question now : ℕ}
    {step : Text}
    → IsCounted s
    → IsCounted (record s {
      status = st;
      error = message;
      current_question = question;
      current_step = step;
      updated_at = now;
    })
of_frames h = record {
  frames = h.frames;
  paths = h.paths;
  newest = h.newest;
  unchanged = h.unchanged;
}

start-IsCounted :
    (now : ℕ) (st : CaptureSessionStatus) (s : CaptureSession)
    → s.status ≡ st
    → IsCounted s
    → IsCounted (after (start now s) s)
unfolding start
start-IsCounted now created s e h = rw e (of_frames h)
start-IsCounted now running s e h = rw e (of_frames h)
start-IsCounted now paused s e h = rw e (of_frames h)
start-IsCounted now stopped s e h = rw e (of_frames h)
start-IsCounted now completed s e h = rw e (of_frames h)
start-IsCounted now error s e h = rw e (of_frames h)

pause-IsCounted :
    (now : ℕ) (st : CaptureSessionStatus) (s : CaptureSession)
    → s.status ≡ st
    → IsCounted s
    → IsCounted (after (pause now s) s)
unfolding pause
pause-IsCounted now created s e h = rw e (of_frames h)
pause-IsCounted now running s e h = rw e (of_frames h)
pause-IsCounted now paused s e h = rw e (of_frames h)
pause-IsCounted now stopped s e h = rw e (of_frames h)
pause-IsCounted now completed s e h = rw e (of_frames h)
pause-IsCounted now error s e h = rw e (of_frames h)

resume-IsCounted :
    (now : ℕ) (st : CaptureSessionStatus) (s : CaptureSession)
    → s.status ≡ st
    → IsCounted s
    → IsCounted (after (resume now s) s)
unfolding resume
resume-IsCounted now created s e h = rw e (of_frames h)
resume-IsCounted now running s e h = rw e (of_frames h)
resume-IsCounted now paused s e h = rw e (of_frames h)
resume-IsCounted now stopped s e h = rw e (of_frames h)
resume-IsCounted now completed s e h = rw e (of_frames h)
resume-IsCounted now error s e h = rw e (of_frames h)

stop-IsCounted :
    (now : ℕ) (reason : Option Text) (st : CaptureSessionStatus) (s : CaptureSession)
    → s.status ≡ st
    → IsCounted s
    → IsCounted (after (stop now reason s) s)
unfolding stop
stop-IsCounted now reason created s e h = rw e (of_frames h)
stop-IsCounted now reason running s e h = rw e (of_frames h)
stop-IsCounted now reason paused s e h = rw e (of_frames h)
stop-IsCounted now reason stopped s e h = rw e (of_frames h)
stop-IsCounted now reason completed s e h = rw e (of_frames h)
stop-IsCounted now reason error s e h = rw e (of_frames h)

complete-IsCounted :
    (now : ℕ) (st : CaptureSessionStatus) (s : CaptureSession)
    → s.status ≡ st
    → IsCounted s
    → IsCounted (after (complete now s) s)
unfolding complete
complete-IsCounted now created s e h = rw e (of_frames h)
complete-IsCounted now running s e h = rw e (of_frames h)
complete-IsCounted now paused s e h = rw e (of_frames h)
complete-IsCounted now stopped s e h = rw e (of_frames h)
complete-IsCounted now completed s e h = rw e (of_frames h)
complete-IsCounted now error s e h = rw e (of_frames h)

paths_bound :
    (path : Option Text) (paths : List Text) (n : ℕ)
    → length paths ≤ n
    → length (elim path [ none ↦ paths | some p ↦ paths ++ p ∷ [] ]) ≤ n + 1
paths_bound none paths n h = omega arith
paths_bound (some p) paths n h = omega (arith, length-append paths (p ∷ []))

run_bound : (b : Bool) (n m : ℕ) → n ≤ m → (if b then 0 else n + 1) ≤ m + 1
run_bound true n m h = omega arith
run_bound false n m h = omega arith

record_screenshot-IsCounted :
    (now : ℕ) (value : Text) (path : Option Text) (changed : Option Bool) (s : CaptureSession)
    → IsCounted s
    → IsCounted (after (record_screenshot now value path changed s) s)
unfolding record_screenshot
record_screenshot-IsCounted now value path changed s h = record {
  frames = omega (arith, h.frames, length-append s.screenshot_hashes (value ∷ []));
  paths = paths_bound path s.screenshot_paths s.frame_count h.paths;
  newest = sym (last-append s.screenshot_hashes value);
  unchanged =
      run_bound (is_changed changed s.last_screenshot_hash value) s.consecutive_unchanged
        s.frame_count h.unchanged;
}

perform-IsCounted :
    (c : Call) (s : CaptureSession) → IsCounted s → IsCounted (after (perform c s) s)
unfolding perform fail set_progress
perform-IsCounted (call_start now) s h = start-IsCounted now s.status s refl h
perform-IsCounted (call_pause now) s h = pause-IsCounted now s.status s refl h
perform-IsCounted (call_resume now) s h = resume-IsCounted now s.status s refl h
perform-IsCounted (call_stop now reason) s h = stop-IsCounted now reason s.status s refl h
perform-IsCounted (call_complete now) s h = complete-IsCounted now s.status s refl h
perform-IsCounted (call_fail now message) s h = of_frames h
perform-IsCounted (call_set_progress now question step) s h = of_frames h
perform-IsCounted (call_record_screenshot now value path changed) s h =
    record_screenshot-IsCounted now value path changed s h

-- Any calls, refused ones among them, keep a session's counters in step with its lists: the
-- frame count is the number of hashes, the last hash is the newest, and there are at most as many
-- paths, and as long a run of unchanged frames, as frames.
pub perform_all-IsCounted :
    (cs : List Call) (s : CaptureSession) → IsCounted s → IsCounted (perform_all cs s)
unfolding perform_all
perform_all-IsCounted [] s h = h
perform_all-IsCounted (c ∷ cs) s h =
    perform_all-IsCounted cs (after (perform c s) s) (perform-IsCounted c s h)

-- How many items at the head of a list equal `x`.
abbrev pub leading : Text → List Text → ℕ
leading x [] = 0
leading x (y ∷ ys) = if x == y then suc (leading x ys) else 0

-- How many items right after the first repeat it.
abbrev pub repeats : List Text → ℕ
repeats [] = 0
repeats (x ∷ xs) = leading x xs

abbrev pub head : List Text → Option Text
head [] = none
head (x ∷ xs) = some x

-- The hashes of a list of screenshots, the newest first, before those of `seen`.
abbrev pub newest_first : List (ℕ × Text × Option Text) → List Text → List Text
newest_first [] seen = seen
newest_first ((now, value, path) ∷ shots) seen = newest_first shots (value ∷ seen)

-- Screenshots recorded one after the other, without a detector's verdict.
abbrev pub recordings : List (ℕ × Text × Option Text) → List Call
recordings [] = []
recordings ((now, value, path) ∷ shots) =
    call_record_screenshot now value path none ∷ recordings shots

leading-same : (x y : Text) (ys : List Text) → x ≡ y → leading x ys ≡ leading y ys
leading-same x y ys e = ap (λ z. leading z ys) e

absurd_of {ℓ} : {A : Type ℓ} {b : Bool} → b ≡ false → b ≡ true → A
absurd_of f t = cc

repeats-cons :
    (value : Text) (seen : List Text)
    → (if differs (head seen) value then 0 else repeats seen + 1) ≡ repeats (value ∷ seen)
repeats-cons value [] = refl
repeats-cons value (y ∷ ys) = elim (Bool-cases (value == y)) [
  | inl same ↦
      let e = (==_iff value y).0 same in
      rw same (rw ((==_iff y value).1 (sym e)) (omega (arith, leading-same value y ys e)))
  | inr other ↦ rw other (elim (Bool-cases (y == value)) [
    | inl same ↦ absurd_of other ((==_iff value y).1 (sym ((==_iff y value).0 same)))
    | inr different ↦ rw different refl
  ])
]

recordings-repeats :
    (shots : List (ℕ × Text × Option Text)) (s : CaptureSession) (seen : List Text)
    → s.last_screenshot_hash ≡ head seen
    → s.consecutive_unchanged ≡ repeats seen
    → (perform_all (recordings shots) s).consecutive_unchanged ≡ repeats (newest_first shots seen)
unfolding perform_all perform record_screenshot
recordings-repeats [] s seen l c = c
recordings-repeats ((now, value, path) ∷ shots) s seen l c =
    recordings-repeats shots (after (perform (call_record_screenshot now value path none) s) s)
      (value ∷ seen) refl (rw l (rw c (repeats-cons value seen)))

-- Screenshots recorded without a detector, on a session that has no frame yet: the counter of
-- unchanged frames is the number of frames right before the newest that have its hash.
pub consecutive_unchanged_lem :
    (shots : List (ℕ × Text × Option Text)) (s : CaptureSession)
    → s.last_screenshot_hash ≡ none
    → s.consecutive_unchanged ≡ 0
    → (perform_all (recordings shots) s).consecutive_unchanged ≡ repeats (newest_first shots [])
consecutive_unchanged_lem shots s l c = recordings-repeats shots s [] l c
