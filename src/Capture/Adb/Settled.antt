-- ===== src/Capture/Adb/Settled.antt =====
-- How a capture run ends, whatever the device and the action provider do.
use dingzhen_notebook.Common.{
  ℕ, zero, suc, ◌+◌, ◌≤◌, ◌≡◌, refl, Bool, true, false, ◌&&◌, Bool-cases, inl, inr, Option, some,
  List, [], ◌∷◌, ◌++◌, Text, length, length-append, ltb, Option-cases, arith,
}
use dingzhen_notebook.Capture.Session.{
  CaptureSession, CaptureSessionStatus, created, running, paused, stopped, completed, error, stop,
  fail, Call, perform_all,
}
use dingzhen_notebook.Capture.Adb.{
  PageChangeDetector, fresh, detector, continued, observe, Shot, failed, shot, Action, Answer,
  raises, halt, act, Run, Round, ended, onward, is_running, stopped_for, failed_with, started,
  screenshot, apply_action, answered, respond, recorded, round, loop, run, limit_reason,
  provider_reason, unchanged_reason,
}

is_running-stop_at :
    (now : ℕ) (reason : Text) (st : CaptureSessionStatus) (s : CaptureSession)
    → s.status ≡ st
    → is_running (stopped_for now reason s).status ≡ false
unfolding stop
is_running-stop_at now reason created s h = rw h refl
is_running-stop_at now reason running s h = rw h refl
is_running-stop_at now reason paused s h = rw h refl
is_running-stop_at now reason stopped s h = rw h refl
is_running-stop_at now reason completed s h = rw h refl
is_running-stop_at now reason error s h = rw h refl

pub is_running-stop :
    (now : ℕ) (reason : Text) (s : CaptureSession)
    → is_running (stopped_for now reason s).status ≡ false
is_running-stop now reason s = is_running-stop_at now reason s.status s refl

is_running-fail :
    (now : ℕ) (message : Text) (s : CaptureSession)
    → is_running (failed_with now message s).status ≡ false
unfolding fail
is_running-fail now message s = refl

-- The run is over and took at most `m` frames.
pub record IsSettled (m : ℕ) (r : Run) : Type 0 where
  pub over : is_running r.session.status ≡ false
  pub bounded : length r.frames ≤ m

-- A pass ends the run with at most one frame more, or goes on with one more.
abbrev IsPass : List Text → Round → Type 0
IsPass frames (ended s frames') =
    (is_running s.status ≡ false) × (length frames' ≤ length frames + 1)
IsPass frames (onward d frames' s) = length frames' ≡ length frames + 1

not_less : (n : ℕ) → 1 ≤ n → ltb n 1 ≡ false
not_less n h = ground arith

pub detector_enough : (n : ℕ) → 1 ≤ n → detector n ≡ some (fresh n)
unfolding detector
detector_enough n h = rw (not_less n h) refl

module _ (shoot : ℕ → Text → Shot) (send : Text → Action → Option Text) (connected : List Text)
    (provider : ℕ → Text → CaptureSession → Answer × List Call) (now : ℕ → ℕ) where
  answered-IsPass :
      (serial : Option Text) (d : PageChangeDetector) (base frames : List Text) (n : ℕ)
      (answer : Answer) (s : CaptureSession)
      → length frames ≡ length base + 1
      → IsPass base (answered shoot send connected provider now serial d frames n answer s)
  unfolding answered
  answered-IsPass serial d base frames n (raises message) s h =
      (is_running-fail (now n) message s, omega (arith, h))
  answered-IsPass serial d base frames n halt s h =
      (is_running-stop (now n) provider_reason s, omega (arith, h))
  answered-IsPass serial d base frames n (act action) s h =
      elim (Option-cases (apply_action shoot send connected provider now serial action s)) [
        | inl none_raised ↦ rw (answered, none_raised) h
        | inr (message, e) ↦ rw (answered, e) (is_running-fail (now n) message s, omega (arith, h))
      ]

  respond-IsPass :
      (serial : Option Text) (d : PageChangeDetector) (base frames : List Text) (s : CaptureSession)
      (n : ℕ) (hash : Text)
      → length frames ≡ length base + 1
      → IsPass base (respond shoot send connected provider now serial d frames s n hash)
  unfolding respond
  respond-IsPass serial d base frames s n hash h =
      let (answer, calls) = provider n hash s in
      answered-IsPass serial d base frames n answer (perform_all calls s) h

  round-IsPass :
      (serial : Option Text) (stop_on_unchanged : Bool) (d : PageChangeDetector)
      (frames : List Text) (s : CaptureSession) (n : ℕ)
      → IsPass frames
          (round shoot send connected provider now serial stop_on_unchanged d frames s n)
  unfolding round
  round-IsPass serial stop_on_unchanged d frames s n =
      taken (screenshot shoot send connected provider now n serial s)
    where
      taken :
          (r : Shot)
          → IsPass frames (elim r [
            | failed message ↦ ended (failed_with (now n) message s) frames
            | shot hash ↦
                let (seen, d') = observe hash d in
                let s' = recorded shoot send connected provider now n hash seen.changed s in
                let frames' = frames ++ hash ∷ [] in
                elim (stop_on_unchanged && seen.should_stop) [
                  | true ↦ ended (stopped_for (now n) unchanged_reason s') frames'
                  | false ↦ respond shoot send connected provider now serial d' frames' s' n hash
                ]
          ])
      taken (failed message) = (is_running-fail (now n) message s, omega arith)
      taken (shot hash) =
          let more = length-append frames (hash ∷ []) in
          elim (Bool-cases (stop_on_unchanged && (observe hash d).0.should_stop)) [
            | inl e ↦ rw e (
              is_running-stop (now n) unchanged_reason
                  (recorded shoot send connected provider now n hash (observe hash d).0.changed s),
              omega (arith, more),
            )
            | inr e ↦ rw e (
                respond-IsPass serial (observe hash d).1 frames (frames ++ hash ∷ [])
                  (recorded shoot send connected provider now n hash (observe hash d).0.changed s) n
                  hash more)
          ]

  -- A loop of any number of rounds ends with the session not running.
  loop-IsSettled :
      (rounds : ℕ) (serial : Option Text) (stop_on_unchanged : Bool) (d : PageChangeDetector)
      (frames : List Text) (s : CaptureSession) (n : ℕ)
      → IsSettled
          (length frames + rounds)
          (loop shoot send connected provider now rounds serial stop_on_unchanged d frames s n)
  unfolding loop
  loop-IsSettled zero serial stop_on_unchanged d frames s n =
      elim (Bool-cases (is_running s.status)) [
        | inl e ↦
            rw e (record { over = is_running-stop (now n) limit_reason s; bounded = omega arith })
        | inr e ↦ record { over = rw e e; bounded = omega arith }
      ]
  loop-IsSettled (suc rounds) serial stop_on_unchanged d frames s n =
      elim (Bool-cases (is_running s.status)) [
        | inl e ↦
            rw (e, loop)
              (passed
                (round shoot send connected provider now serial stop_on_unchanged d frames s n)
                (round-IsPass serial stop_on_unchanged d frames s n)
                (λ d' frames' s'.
                  loop-IsSettled rounds serial stop_on_unchanged d' frames' s' (n + 1)))
        | inr e ↦ rw (e, loop) (record { over = e; bounded = omega arith })
      ]
    where
      passed :
          (r : Round)
          → IsPass frames r
          → ((d' : PageChangeDetector) (frames' : List Text) (s' : CaptureSession)
              → IsSettled (length frames' + rounds) (
                  loop shoot send connected provider now rounds serial stop_on_unchanged d' frames'
                    s'
                    (n + 1)))
          → IsSettled (length frames + suc rounds) (elim r [
            | ended s' frames' ↦ record { session = s'; frames = frames' }
            | onward d' frames' s' ↦
                loop shoot send connected provider now rounds serial stop_on_unchanged d' frames' s'
                  (n + 1)
          ])
      passed (ended s' frames') h later = record { over = h.0; bounded = omega (arith, h.1) }
      passed (onward d' frames' s') h later =
          let rest = later d' frames' s' in
          record { over = rest.over; bounded = omega (arith, rest.bounded, h) }

  -- A run with a threshold of at least one comes to an end, whatever the device and the action
  -- provider do: it gives a result, with at most `max_frames` frames, and its session does not run.
  pub run-IsSettled :
      (serial : Option Text) (max_frames threshold : ℕ) (stop_on_unchanged : Bool)
      (s : CaptureSession)
      → 1 ≤ threshold
      → (r : Run) × (run shoot send connected provider now serial max_frames threshold
            stop_on_unchanged s
          ≡ some r)
        × IsSettled max_frames r
  unfolding run
  run-IsSettled serial max_frames threshold stop_on_unchanged s enough =
      let d = fresh threshold in
      let s' = started (now 0) s in
      elim (Bool-cases (is_running s'.status)) [
        | inl e ↦
            let h = loop-IsSettled max_frames serial stop_on_unchanged (continued s d) [] s' 0 in
            (
              loop shoot send connected provider now max_frames serial stop_on_unchanged
                  (continued s d) [] s' 0,
              rw (detector_enough threshold enough, e, run) refl,
              record { over = h.over; bounded = omega (arith, h.bounded) },
            )
        | inr e ↦ (
          record { session = s'; frames = [] },
          rw (detector_enough threshold enough, e, run) refl,
          record { over = e; bounded = omega arith },
        )
      ]
