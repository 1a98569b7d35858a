-- ===== src/Capture/Adb/Frame.antt =====
-- `AdbCaptureAdapter.capture_frame` (packages/capture/adb.py): one frame for a session, with the
-- parameters of the capture loop. `make` is the making of a
-- checkpoint's folder and `write` the writing of the checkpoint: the text of the exception that
-- they raise, if they do.
use dingzhen_notebook.Common.{
  ℕ, ◌+◌, ◌||◌, is_some, Bool, ◌≡◌, true, false, ◌⊎◌, Option, none, some, List, [], ◌∷◌, ◌++◌, Text,
  txt, if◌then◌else◌,
}
use dingzhen_notebook.Capture.Session.{
  CaptureSession, running, stopped, error, status_value, stop, fail, record_screenshot, after,
}
use dingzhen_notebook.Capture.Adb.{
  PageChangeDetector, detector, continued, observe, Shot, failed, shot, first, serial_or,
  frame_path, is_running, started, stopped_for, failed_with, no_device, unchanged_reason,
}

-- What `connected_devices()` gives: serials, or an exception.
pub data Connected : Type 0 where
  devices : List Text → Connected
  unreachable : Text → Connected

-- An exception's text and the session that is left, or the hash of a frame and the session.
pub data Capture : Type 0 where
  raised : Text → CaptureSession → Capture
  framed : Text → CaptureSession → Capture

-- `session.device_serial = name`
abbrev pub on_device : Text → CaptureSession → CaptureSession
on_device name s = record s { device_serial = some name }

module _ (shoot : ℕ → Text → Shot) (connected : Connected) (now : ℕ → ℕ) (make : Text → Option Text)
    (write : Text → CaptureSession → Option Text) where
  -- `session.save()`: the exception that it raises, and the session.
  unfoldable pub save_to : Text → CaptureSession → Option Text × CaptureSession
  save_to path s = elim (make path) [
    | some message ↦ (some message, s)
    | none ↦ let s' = record s { state_path = some path } in (write path s', s')
  ]

  unfoldable pub save : CaptureSession → Option Text × CaptureSession
  unfolding save_to txt
  save s = elim s.state_path [
    | some path ↦ save_to path s
    | none ↦ elim s.root [
      | none ↦ (some (txt "a state path or session root is required"), s)
      | some root ↦ save_to (root ++ txt "/manifest.json") s
    ]
  ]

  -- `session.save()` where it is skipped without a state path and a root.
  unfoldable pub save_kept : CaptureSession → Option Text × CaptureSession
  unfolding save
  save_kept s = if is_some s.state_path || is_some s.root then save s else (none, s)

  -- The text that is raised in the end: of the exception, or of a failing `save` after it.
  abbrev pub raised_text : Text → Option Text → Text
  raised_text message none = message
  raised_text message (some later) = later

  -- The `except` block.
  unfoldable pub give_up : ℕ → Text → CaptureSession → Capture
  unfolding fail save_kept
  give_up n message s =
      let after_save = save_kept (failed_with (now n) message s) in
      raised (raised_text message after_save.0) after_save.1

  -- The end of the `try` block, with the frame recorded.
  unfoldable pub keep_frame : ℕ → Text → CaptureSession → Capture
  unfolding save_kept give_up
  keep_frame n hash s = elim (save_kept s).0 [
    | none ↦ framed hash (save_kept s).1
    | some message ↦ give_up n message (save_kept s).1
  ]

  -- The session with the frame, stopped when the page did not change for long, and saved.
  unfoldable pub with_shot : ℕ → Text → Text → PageChangeDetector → CaptureSession → Capture
  unfolding observe record_screenshot stop frame_path keep_frame txt
  with_shot n name hash d s =
      let seen = (observe hash d).0 in
      let s' =
        on_device name
          (after (record_screenshot (now n) hash (frame_path s) (some seen.changed) s) s) in
      keep_frame n hash (if seen.should_stop then stopped_for (now n) unchanged_reason s' else s')

  -- The `try` block.
  unfoldable pub try_frame : ℕ → Text → ℕ → CaptureSession → Capture
  unfolding with_shot detector continued give_up txt
  try_frame n name max_unchanged s = elim (shoot n name) [
    | failed message ↦ give_up n message s
    | shot hash ↦ elim (detector max_unchanged) [
      | none ↦ give_up n (txt "max_unchanged must be at least one") s
      | some d ↦ with_shot n name hash (continued s d) s
    ]
  ]

  unfoldable pub capture_frame : ℕ → Option Text → ℕ → CaptureSession → Capture
  unfolding started try_frame fail save status_value txt
  capture_frame n serial max_unchanged session =
      let s = started (now n) session in
      elim (is_running s.status) [
        | false ↦ raised (txt "session is not running (" ++ status_value s.status ++ txt ")") s
        | true ↦ elim (serial_or serial (serial_or s.device_serial none)) [
          | some name ↦ try_frame n name max_unchanged s
          | none ↦ elim connected [
            | unreachable message ↦ raised message s
            | devices names ↦ elim (first names) [
              | none ↦
                  let after_save = save (failed_with (now n) no_device s) in
                  raised (raised_text no_device after_save.0) after_save.1
              | some name ↦ try_frame n name max_unchanged (on_device name s)
            ]
          ]
        ]
      ]

  -- The lookup of the devices itself fails.
  abbrev pub is_unreachable : Connected → Bool
  is_unreachable (devices names) = false
  is_unreachable (unreachable message) = true

  -- The new frame behind those that were there.
  abbrev pub HasFrame : CaptureSession → Text → CaptureSession → Type 0
  HasFrame s hash s' =
      (s'.screenshot_hashes ≡ s.screenshot_hashes ++ hash ∷ [])
      × (s'.frame_count ≡ s.frame_count + 1)
      × (s'.last_screenshot_hash ≡ some hash)

  -- The frames that were there.
  abbrev pub SameFrames : CaptureSession → CaptureSession → Type 0
  SameFrames s s' = (s'.screenshot_hashes ≡ s.screenshot_hashes) × (s'.frame_count ≡ s.frame_count)

  -- A frame that was recorded before saving the session failed.
  abbrev pub UnsavedFrame : CaptureSession → CaptureSession → Type 0
  UnsavedFrame s s' = (hash : Text) × HasFrame s hash s' × (s'.status ≡ error)

  -- What a capture keeps.
  abbrev pub IsCapture : CaptureSession → Capture → Type 0
  IsCapture s (raised message s') =
      (SameFrames s s' × ((is_running s'.status ≡ false) ⊎ (is_unreachable connected ≡ true)))
      ⊎ UnsavedFrame s s'
  IsCapture s (framed hash s') =
      HasFrame s hash s' × ((s'.status ≡ running) ⊎ (s'.status ≡ stopped))

  -- Saving leaves the frames and the status.
  abbrev pub SavedAs : CaptureSession → CaptureSession → Type 0
  SavedAs s s' =
      (s'.screenshot_hashes ≡ s.screenshot_hashes)
      × (s'.frame_count ≡ s.frame_count)
      × (s'.last_screenshot_hash ≡ s.last_screenshot_hash)
      × (s'.status ≡ s.status)
