-- ===== src/Capture/Adb/Unchanged.antt =====
-- The page-change detector: it agrees with the session's own comparison of frames, and a screen
-- that stands still ends a run.
use dingzhen_notebook.Common.{
  ℕ, zero, suc, ◌+◌, ◌≤◌, ◌<◌, ◌≡◌, refl, sym, subst, ap, ◌∙◌, true, false, Option, none, some,
  List, [], ◌∷◌, ◌++◌, Text, text_eq, ==-refl, length, length-append, leb, arith, map,
}
use dingzhen_notebook.Capture.Session.{
  CaptureSession, created, running, stopped, start, stop, after, record_screenshot, perform, Call,
  call_record_screenshot, perform_all,
}
use dingzhen_notebook.Capture.Adb.{
  PageChangeDetector, fresh, continued, observe, Shot, shot, Action, again, Answer, act, Run, ended,
  onward, stopped_for, started, screenshot, apply_action, answered, respond, recorded, round, loop,
  run, unchanged_reason, target,
}
use dingzhen_notebook.Capture.Adb.Settled.{detector_enough}

-- The detector and the session remember the same.
pub record IsFollowing (d : PageChangeDetector) (s : CaptureSession) : Type 0 where
  pub hash : d.previous_hash ≡ s.last_screenshot_hash
  pub count : d.consecutive_unchanged ≡ s.consecutive_unchanged
  pub index : d.frame_index ≡ s.frame_count

-- A frame recorded by the session's own comparison.
abbrev pub record_frame : Text × ℕ × Option Text → Call
record_frame (hash, now, path) = call_record_screenshot now hash path none

unfoldable pub observe_all : List (Text × ℕ × Option Text) → PageChangeDetector → PageChangeDetector
unfolding observe
observe_all [] d = d
observe_all ((hash, now, path) ∷ frames) d = observe_all frames (observe hash d).1

observe-IsFollowing :
    (hash : Text) (now : ℕ) (path : Option Text) (d : PageChangeDetector) (s : CaptureSession)
    → IsFollowing d s
    → IsFollowing (observe hash d).1 (after (record_screenshot now hash path none s) s)
unfolding observe record_screenshot
observe-IsFollowing hash now path d s h = record {
  hash = refl;
  count = rw (h.hash, h.count) refl;
  index = ap (λ n. n + 1) h.index;
}

-- For any frames that come after what a session has, a detector that goes on from the session
-- counts the same unchanged frames as the session counts by itself, and remembers the same last
-- frame and number of frames.
pub observe_all-IsFollowing :
    (frames : List (Text × ℕ × Option Text)) (d : PageChangeDetector) (s : CaptureSession)
    → IsFollowing d s
    → IsFollowing (observe_all frames d) (perform_all (map record_frame frames) s)
unfolding observe_all perform_all perform
observe_all-IsFollowing [] d s h = h
observe_all-IsFollowing ((hash, now, path) ∷ frames) d s h =
    observe_all-IsFollowing frames (observe hash d).1
      (after (record_screenshot now hash path none s) s) (observe-IsFollowing hash now path d s h)

continued-IsFollowing :
    (d : PageChangeDetector) (s : CaptureSession) → IsFollowing (continued s d) s
unfolding continued
continued-IsFollowing d s = record { hash = refl; count = refl; index = refl }

-- A detector continued from a session counts unchanged frames as the session does.
pub observe_all-perform_all :
    (frames : List (Text × ℕ × Option Text)) (d : PageChangeDetector) (s : CaptureSession)
    → IsFollowing (observe_all frames (continued s d)) (perform_all (map record_frame frames) s)
observe_all-perform_all frames d s =
    observe_all-IsFollowing frames (continued s d) s (continued-IsFollowing d s)

pub started_created :
    (now : ℕ) (s : CaptureSession)
    → s.status ≡ created
    → started now s ≡ record s { status = running; error = none; updated_at = now }
unfolding started start
started_created now s new = rw new refl

stop_running :
    (now : ℕ) (reason : Text) (s : CaptureSession)
    → s.status ≡ running
    → (stopped_for now reason s).status ≡ stopped
unfolding stop
stop_running now reason s runs = rw runs refl

reached : (max count : ℕ) → count + 1 ≡ max → leb max (count + 1) ≡ true
reached max count h = ground arith

short_of : (m max count : ℕ) → count + suc (suc m) ≡ max → leb max (count + 1) ≡ false
short_of m max count h = ground arith

module _ (shoot : ℕ → Text → Shot) (send : Text → Action → Option Text) (connected : List Text)
    (provider : ℕ → Text → CaptureSession → Answer × List Call) (now : ℕ → ℕ) (hash : Text)
    (still : (n : ℕ) (serial : Text) → shoot n serial ≡ shot hash)
    (quiet : (n : ℕ) (h : Text) (s : CaptureSession) → provider n h s ≡ (act again, [])) where
  round_last :
      (serial name : _) (d : PageChangeDetector) (frames : List Text) (s : CaptureSession) (n : ℕ)
      → target shoot send connected provider now serial s ≡ some name
      → leb d.max_unchanged (observe hash d).0.consecutive_unchanged ≡ true
      → round shoot send connected provider now serial true d frames s n
        ≡ ended
            (stopped_for
              (now n)
              unchanged_reason
              (recorded shoot send connected provider now n hash (observe hash d).0.changed s))
            (frames ++ hash ∷ [])
  unfolding round screenshot observe
  round_last serial name d frames s n aimed last =
      rw (round, screenshot, aimed, still n name, last) refl

  apply_action-again :
      (serial : Option Text) (name : Text) (s : CaptureSession)
      → target shoot send connected provider now serial s ≡ some name
      → apply_action shoot send connected provider now serial again s ≡ none
  unfolding apply_action
  apply_action-again serial name s aimed = rw (apply_action, aimed) refl

  respond_quiet :
      (serial : Option Text) (name : Text) (d : PageChangeDetector) (frames : List Text)
      (s : CaptureSession) (n : ℕ)
      → target shoot send connected provider now serial s ≡ some name
      → respond shoot send connected provider now serial d frames s n hash ≡ onward d frames s
  unfolding respond answered perform_all
  respond_quiet serial name d frames s n aimed =
      ap (λ a. answered shoot send connected provider now serial d frames n a.0 (perform_all a.1 s))
        (quiet n hash s)
      ∙ rw (answered, apply_action-again serial name s aimed) refl

  round_before :
      (serial : Option Text) (name : Text) (d : PageChangeDetector) (frames : List Text)
      (s : CaptureSession) (n : ℕ)
      → target shoot send connected provider now serial s ≡ some name
      → leb d.max_unchanged (observe hash d).0.consecutive_unchanged ≡ false
      → round shoot send connected provider now serial true d frames s n
        ≡ onward
            (observe hash d).1
            (frames ++ hash ∷ [])
            (recorded shoot send connected provider now n hash (observe hash d).0.changed s)
  unfolding round screenshot observe record_screenshot
  round_before serial name d frames s n aimed more =
      rw (round, screenshot, aimed, still n name, more)
        (respond_quiet serial name (observe hash d).1 (frames ++ hash ∷ [])
          (recorded shoot send connected provider now n hash (observe hash d).0.changed s) n aimed)

  count_same :
      (d : PageChangeDetector)
      → d.previous_hash ≡ some hash
      → (observe hash d).0.consecutive_unchanged ≡ d.consecutive_unchanged + 1
  unfolding observe
  count_same d same = rw (same, ==-refl hash) refl

  abbrev step : ℕ → PageChangeDetector → CaptureSession → CaptureSession
  step n d s = recorded shoot send connected provider now n hash (observe hash d).0.changed s

  loop_ended :
      (rounds : ℕ) (serial : Option Text) (d : PageChangeDetector) (frames frames' : List Text)
      (s s' : CaptureSession) (n : ℕ)
      → s.status ≡ running
      → round shoot send connected provider now serial true d frames s n ≡ ended s' frames'
      → loop shoot send connected provider now (suc rounds) serial true d frames s n
        ≡ record { session = s'; frames = frames' }
  unfolding loop
  loop_ended rounds serial d frames frames' s s' n runs e = rw (loop, runs, e) refl

  loop_onward :
      (rounds : ℕ) (serial : Option Text) (d d' : PageChangeDetector) (frames frames' : List Text)
      (s s' : CaptureSession) (n : ℕ)
      → s.status ≡ running
      → round shoot send connected provider now serial true d frames s n ≡ onward d' frames' s'
      → loop shoot send connected provider now (suc rounds) serial true d frames s n
        ≡ loop shoot send connected provider now rounds serial true d' frames' s' (n + 1)
  unfolding loop
  loop_onward rounds serial d d' frames frames' s s' n runs e = rw (loop, runs, e) refl

  abbrev pub IsStopped : ℕ → Run → Type 0
  IsStopped k r = (r.session.status ≡ stopped) × (length r.frames ≡ k)

  -- The unchanged frames that are still missing.
  loop_still :
      (m rounds : ℕ) (serial : Option Text) (name : Text) (d : PageChangeDetector)
      (frames : List Text) (s : CaptureSession) (n : ℕ)
      → target shoot send connected provider now serial s ≡ some name
      → s.status ≡ running
      → d.previous_hash ≡ some hash
      → d.consecutive_unchanged + suc m ≡ d.max_unchanged
      → m < rounds
      → IsStopped
          (length frames + suc m)
          (loop shoot send connected provider now rounds serial true d frames s n)
  unfolding observe record_screenshot
  loop_still m zero serial name d frames s n aimed runs same missing enough =
      absurd (omega (arith, enough))
  loop_still zero (suc rounds) serial name d frames s n aimed runs same missing enough =
      let counted = count_same d same in
      let e =
        round_last serial name d frames s n aimed
          (rw counted (reached d.max_unchanged d.consecutive_unchanged missing)) in
      subst (IsStopped (length frames + 1))
        (sym (
          loop_ended rounds serial d frames (frames ++ hash ∷ []) s
            (stopped_for (now n) unchanged_reason (step n d s)) n runs e))
        (stop_running (now n) unchanged_reason (step n d s) runs, length-append frames (hash ∷ []))
  loop_still (suc m) (suc rounds) serial name d frames s n aimed runs same missing enough =
      let counted = count_same d same in
      let e =
        round_before serial name d frames s n aimed
          (rw counted (short_of m d.max_unchanged d.consecutive_unchanged missing)) in
      let rest =
        loop_still m rounds serial name (observe hash d).1 (frames ++ hash ∷ []) (step n d s)
          (n + 1) aimed runs refl (rw counted (omega (arith, missing))) (omega (arith, enough)) in
      let more = length-append frames (hash ∷ []) in
      subst (IsStopped (length frames + suc (suc m)))
        (sym (
          loop_onward rounds serial d (observe hash d).1 frames (frames ++ hash ∷ []) s (step n d s)
            n runs e))
        (rest.0, rest.1 ∙ omega (arith, more))

  count_new :
      (d : PageChangeDetector)
      → d.previous_hash ≡ none
      → (observe hash d).0.consecutive_unchanged ≡ 0
  unfolding observe
  count_new d new = rw new refl

  loop_first :
      (m rounds : ℕ) (serial : Option Text) (name : Text) (s : CaptureSession)
      → target shoot send connected provider now serial s ≡ some name
      → s.status ≡ running
      → s.last_screenshot_hash ≡ none
      → suc m < rounds
      → IsStopped (suc (suc m)) (
          loop shoot send connected provider now rounds serial true
            (continued s (fresh (suc m)))
            []
            s
            0)
  unfolding observe record_screenshot continued
  loop_first m zero serial name s aimed runs new enough = absurd (omega (arith, enough))
  loop_first m (suc rounds) serial name s aimed runs new enough =
      let d = continued s (fresh (suc m)) in
      let counted = count_new d new in
      let e = round_before serial name d [] s 0 aimed (rw counted (ground arith)) in
      let rest =
        loop_still m rounds serial name (observe hash d).1 (hash ∷ []) (step 0 d s) 1 aimed runs
          refl (rw counted (omega arith)) (omega (arith, enough)) in
      subst (IsStopped (suc (suc m)))
        (sym
          (loop_onward rounds serial d (observe hash d).1 [] (hash ∷ []) s (step 0 d s) 0 runs e))
        (rest.0, rest.1 ∙ omega arith)

  -- A screen that stands still and a provider that only asks to go on: the run of a new session
  -- stops it, after the first frame and `threshold` equal ones, if `max_frames` leaves room for
  -- them.
  pub run-IsStopped :
      (serial : Option Text) (name : Text) (max_frames threshold : ℕ) (s : CaptureSession)
      → target shoot send connected provider now serial s ≡ some name
      → s.status ≡ created
      → s.last_screenshot_hash ≡ none
      → 1 ≤ threshold
      → threshold < max_frames
      → (r : Run) × (run shoot send connected provider now serial max_frames threshold true s
          ≡ some r)
        × IsStopped (suc threshold) r
  unfolding run
  run-IsStopped serial name max_frames zero s aimed new blank least enough =
      absurd (omega (arith, least))
  run-IsStopped serial name max_frames (suc m) s aimed new blank least enough =
      let s' = record s { status = running; error = none; updated_at = now 0 } in
      (
        loop shoot send connected provider now max_frames serial true (continued s' (fresh (suc m)))
            [] s' 0,
        rw (run, detector_enough (suc m) least, started_created (now 0) s new) refl,
        loop_first m max_frames serial name s' aimed refl blank enough,
      )
