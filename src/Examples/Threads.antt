-- ===== src/Examples/Threads.antt =====
-- A capture controller whose steps interleave with those of its worker.
use dingzhen_notebook.Common.{
  Bool, true, false, leb, length, ◌≤◌, ◌≡◌, arith, txt, none, some, List, [], ◌∷◌, refl,
}
use dingzhen_notebook.Desktop.Controller.{
  CaptureSnapshot, CaptureFrame, idle, connecting, running, paused, completed, absent, ready,
  system, Reachable, at_start, after, initial, next_snapshot, control_message, to_pause, start,
  receive, first_frame, choose, publish, finish, complete, conclude, end, ask_pause, paused_service,
  set, put,
}
use dingzhen_notebook.Desktop.Controller.Invariant.{IsSound, Reachable-IsSound}

abbrev frame : CaptureFrame
frame = record { sequence = 0; question_id = some (txt "q1"); device = none }

abbrev snapshot_0 : CaptureSnapshot
snapshot_0 = record {
  status = idle;
  frames_captured = 0;
  current_question = none;
  message = [];
  error = none;
  device = none;
}

abbrev snapshot_1 : CaptureSnapshot
snapshot_1 = next_snapshot connecting (txt "正在检测设备") none none none snapshot_0 []

abbrev frames : List CaptureFrame
frames = frame ∷ []

abbrev snapshot_2 : CaptureSnapshot
snapshot_2 =
    next_snapshot running (txt "正在采集") none frame.question_id frame.device snapshot_1 frames

abbrev snapshot_3 : CaptureSnapshot
snapshot_3 = next_snapshot completed (txt "采集完成") none none none snapshot_2 frames

abbrev snapshot_4 : CaptureSnapshot
snapshot_4 = next_snapshot paused (control_message to_pause) none none none snapshot_3 frames

-- A service whose snapshots count the frames.
abbrev counts : CaptureSnapshot → List CaptureFrame → Bool
counts p fs = leb p.frames_captured (length fs)

-- The client asks to pause, the worker completes, and then the pause is published: the status is
-- "paused", and no worker is left.
paused_without_worker : Reachable counts false (system snapshot_4 frames absent ready)
unfolding next_snapshot initial
paused_without_worker =
    let r1 =
      after (after (after (after (after at_start start) (receive frame)) (first_frame refl)) choose)
        publish in
    let r2 =
      after (after (after (after (after r1 (ask_pause refl)) finish) (complete refl)) conclude)
        end in
    after (after (after r2 paused_service) set) put

counts_right :
    (p : CaptureSnapshot) (fs : List CaptureFrame)
    → counts p fs ≡ true
    → p.frames_captured ≤ length fs
counts_right p fs h = ground arith

Reachable-IsSound_example : IsSound counts false (system snapshot_4 frames absent ready)
Reachable-IsSound_example =
    Reachable-IsSound counts false counts_right (system snapshot_4 frames absent ready)
      paused_without_worker
