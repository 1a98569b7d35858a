-- ===== src/Capture/Adb.antt =====
-- The capture loop of `AdbCaptureAdapter` (packages/capture/adb.py) over a capture session, with
-- its page-change detector. Parameters stand for what the loop meets: `shoot` the device's screen
-- (the call's number and the serial; the hash of the image, or the text of an exception), `send`
-- the device's input, `connected` the serials of the devices, `provider` the caller's action
-- provider, `now` the clock. Saving a session to its file is not part of the model.
pub mod Settled
pub mod Unchanged
pub mod Frame
pub mod Devices
pub mod Words
pub mod Listed
use dingzhen_notebook.Common.{
  ℕ, zero, suc, ◌+◌, Bool, true, false, not, ◌&&◌, Option, none, some, List, [], ◌∷◌, ◌++◌, Text,
  text_eq, ◌==◌, txt, if◌then◌else◌, is_empty, leb, ltb,
}
use dingzhen_notebook.Common.Int.{ℤ}
use dingzhen_notebook.Common.Decimal.{padded}
use dingzhen_notebook.Capture.Session.{
  CaptureSession, CaptureSessionStatus, created, running, paused, stopped, completed, error,
  status_value, start, stop, fail, record_screenshot, after, differs, Call, perform_all,
}

pub record PageChange : Type 0 where
  pub frame_index : ℕ
  pub current_hash : Text
  pub previous_hash : Option Text
  pub changed : Bool
  pub consecutive_unchanged : ℕ
  pub should_stop : Bool

pub record PageChangeDetector : Type 0 where
  pub max_unchanged : ℕ
  pub frame_index : ℕ
  pub previous_hash : Option Text
  pub consecutive_unchanged : ℕ

-- After `reset`
abbrev pub fresh : ℕ → PageChangeDetector
fresh threshold = record {
  max_unchanged = threshold;
  frame_index = 0;
  previous_hash = none;
  consecutive_unchanged = 0;
}

-- `PageChangeDetector(max_unchanged=threshold)`; `none` is the `ValueError`.
unfoldable pub detector : ℕ → Option PageChangeDetector
detector threshold = if ltb threshold 1 then none else some (fresh threshold)

-- A detector that goes on from what the session has.
unfoldable pub continued : CaptureSession → PageChangeDetector → PageChangeDetector
continued s d = record d {
  previous_hash = s.last_screenshot_hash;
  consecutive_unchanged = s.consecutive_unchanged;
  frame_index = s.frame_count;
}

unfoldable pub observe : Text → PageChangeDetector → PageChange × PageChangeDetector
observe current d =
    let changed = differs d.previous_hash current in
    let unchanged = if changed then 0 else d.consecutive_unchanged + 1 in
    (
      record {
        frame_index = d.frame_index + 1;
        current_hash = current;
        previous_hash = d.previous_hash;
        changed = changed;
        consecutive_unchanged = unchanged;
        should_stop = leb d.max_unchanged unchanged;
      },
      record d {
        frame_index = d.frame_index + 1;
        previous_hash = some current;
        consecutive_unchanged = unchanged;
      },
    )

-- What a call of the device gives: an exception's text, or the hash of the image.
pub data Shot : Type 0 where
  failed : Text → Shot
  shot : Text → Shot

-- An input for the device; `again` is `None` or `True`, `ignored` any other value.
pub data Action : Type 0 where
  again : Action
  tap : ℤ → ℤ → Action
  swipe : ℤ → ℤ → ℤ → ℤ → ℤ → Action
  ignored : Action

-- What an action provider does: it raises, it answers `False`, or it gives an action.
pub data Answer : Type 0 where
  raises : Text → Answer
  halt : Answer
  act : Action → Answer

-- `serial or ...`
abbrev pub serial_or : Option Text → Option Text → Option Text
serial_or none other = other
serial_or (some s) other = if is_empty s then other else some s

abbrev pub first : List Text → Option Text
first [] = none
first (s ∷ ss) = some s

-- `_frame_path`
unfoldable pub frame_path : CaptureSession → Option Text
unfolding padded txt
frame_path s = elim s.root [
  | none ↦ none
  | some root ↦ some (root ++ txt "/raw/" ++ padded 6 (s.frame_count + 1) ++ txt ".png")
]

abbrev pub limit_reason : Text
limit_reason = txt "capture frame limit reached"

abbrev pub provider_reason : Text
provider_reason = txt "stopped by action provider"

abbrev pub unchanged_reason : Text
unchanged_reason = txt "page unchanged for safety threshold"

abbrev pub no_device : Text
no_device = txt "no connected ADB device"

abbrev pub is_running : CaptureSessionStatus → Bool
is_running running = true
is_running _ = false

-- The session of a run, and the hashes of its frames.
pub record Run : Type 0 where
  pub session : CaptureSession
  pub frames : List Text

-- A pass of the loop ends the run, or goes on.
pub data Round : Type 0 where
  ended : CaptureSession → List Text → Round
  onward : PageChangeDetector → List Text → CaptureSession → Round

-- `session.stop(reason)` and `session.fail(exc)`
abbrev pub stopped_for : ℕ → Text → CaptureSession → CaptureSession
stopped_for now reason s = after (stop now (some reason) s) s

abbrev pub failed_with : ℕ → Text → CaptureSession → CaptureSession
failed_with now message s = after (fail now message s) s

-- `if session.status == CREATED: session.start()`
unfoldable pub started : ℕ → CaptureSession → CaptureSession
unfolding start
started now s = elim s.status [ created ↦ after (start now s) s | _ ↦ s ]

module _ (shoot : ℕ → Text → Shot) (send : Text → Action → Option Text) (connected : List Text)
    (provider : ℕ → Text → CaptureSession → Answer × List Call) (now : ℕ → ℕ) where
  -- `serial or session.device_serial or self._default_serial()`
  abbrev pub target : Option Text → CaptureSession → Option Text
  target serial s = serial_or serial (serial_or s.device_serial (first connected))

  -- `self.screenshot(...)`; the device is looked up first.
  unfoldable pub screenshot : ℕ → Option Text → CaptureSession → Shot
  unfolding txt
  screenshot n serial s = elim (target serial s) [
    | none ↦ failed no_device
    | some name ↦ shoot n name
  ]

  -- `_apply_action`; an exception's text
  unfoldable pub apply_action : Option Text → Action → CaptureSession → Option Text
  unfolding txt
  apply_action serial action s = elim (target serial s) [
    | none ↦ some no_device
    | some name ↦ elim action [
      | again ↦ none
      | ignored ↦ none
      | tap x y ↦ send name (tap x y)
      | swipe a b c d ms ↦ send name (swipe a b c d ms)
    ]
  ]

  -- What the provider's answer does, after the calls that it made on the session.
  unfoldable pub answered :
      Option Text → PageChangeDetector → List Text → ℕ → Answer → CaptureSession → Round
  unfolding apply_action stop fail txt
  answered serial d frames n (raises message) s = ended (failed_with (now n) message s) frames
  answered serial d frames n halt s = ended (stopped_for (now n) provider_reason s) frames
  answered serial d frames n (act action) s = elim (apply_action serial action s) [
    | some message ↦ ended (failed_with (now n) message s) frames
    | none ↦ onward d frames s
  ]

  -- What follows the screenshot: the provider's action, on a session that has the frame.
  unfoldable pub respond :
      Option Text → PageChangeDetector → List Text → CaptureSession → ℕ → Text → Round
  unfolding answered perform_all
  respond serial d frames s n hash =
      let (answer, calls) = provider n hash s in
      answered serial d frames n answer (perform_all calls s)

  -- `record_screenshot` of what the detector saw.
  abbrev pub recorded : ℕ → Text → Bool → CaptureSession → CaptureSession
  recorded n hash changed s =
      after (record_screenshot (now n) hash (frame_path s) (some changed) s) s

  -- One pass of the loop's body.
  unfoldable pub round :
      Option Text → Bool → PageChangeDetector → List Text → CaptureSession → ℕ → Round
  unfolding observe screenshot respond record_screenshot stop fail frame_path txt
  round serial stop_on_unchanged d frames s n = elim (screenshot n serial s) [
    | failed message ↦ ended (failed_with (now n) message s) frames
    | shot hash ↦
        let (seen, d') = observe hash d in
        let s' = recorded n hash seen.changed s in
        let frames' = frames ++ hash ∷ [] in
        elim (stop_on_unchanged && seen.should_stop) [
          | true ↦ ended (stopped_for (now n) unchanged_reason s') frames'
          | false ↦ respond serial d' frames' s' n hash
        ]
  ]

  -- The loop of `run`, with the rounds left, the frames taken and the session.
  unfoldable pub loop :
      ℕ → Option Text → Bool → PageChangeDetector → List Text → CaptureSession → ℕ → Run
  unfolding round stop txt
  loop zero serial stop_on_unchanged d frames s n = record {
    session = if is_running s.status then stopped_for (now n) limit_reason s else s;
    frames = frames;
  }
  loop (suc rounds) serial stop_on_unchanged d frames s n = elim (is_running s.status) [
    | false ↦ record { session = s; frames = frames }
    | true ↦ elim (round serial stop_on_unchanged d frames s n) [
      | ended s' frames' ↦ record { session = s'; frames = frames' }
      | onward d' frames' s' ↦ loop rounds serial stop_on_unchanged d' frames' s' (n + 1)
    ]
  ]

  -- `run`; `none` is the `ValueError` of a threshold under 1.
  unfoldable pub run : Option Text → ℕ → ℕ → Bool → CaptureSession → Option Run
  unfolding detector continued started loop
  run serial max_frames threshold stop_on_unchanged s = elim (detector threshold) [
    | none ↦ none
    | some d ↦
        let s' = started (now 0) s in
        some (
          if is_running s'.status
          then loop max_frames serial stop_on_unchanged (continued s d) [] s' 0
          else record { session = s'; frames = [] })
  ]
