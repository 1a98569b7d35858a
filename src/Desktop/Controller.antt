-- ===== src/Desktop/Controller.antt =====
-- `CaptureController` (apps/desktop/capture_controller.py): a client that calls `start`, `pause`,
-- `resume` and `stop`, and the worker thread that runs the service. A step is what happens between
-- two reads or writes of the shared snapshot and frames, so the two interleave as threads do; what
-- is done under the lock is one step. The service may deliver frames, report statuses and end as it
-- likes. A client makes one call at a time. Two parameters stand for what is plugged in:
-- `publishes p fs`, whether the service hands in a snapshot `p` of its own after the frames `fs`, and
-- `starts_fail`, whether `start` may raise before its thread runs. Any callback may raise.
pub mod Invariant
use dingzhen_notebook.Common.{
  ℕ, ◌≡◌, Bool, true, false, ◌||◌, Option, none, some, List, [], ◌∷◌, ◌++◌, Text, length, txt,
}

pub data CaptureStatus : Type 0 where
  idle connecting running paused stopping stopped completed no_device error : CaptureStatus

pub record CaptureSnapshot : Type 0 where
  pub status : CaptureStatus
  pub frames_captured : ℕ
  pub current_question : Option Text
  pub message : Text
  pub error : Option Text
  pub device : Option Text

-- A frame: its number, question and device.
pub record CaptureFrame : Type 0 where
  pub sequence : ℕ
  pub question_id : Option Text
  pub device : Option Text

abbrev pub first_given : Option Text → Option Text → Option Text
first_given none previous = previous
first_given (some t) previous = some t

-- What `_set_status` publishes, out of the snapshot and the frames that it reads.
unfoldable pub next_snapshot :
    CaptureStatus
    → Text
    → Option Text
    → Option Text
    → Option Text
    → CaptureSnapshot
    → List CaptureFrame
    → CaptureSnapshot
next_snapshot status message problem question device previous frames = record {
  status = status;
  frames_captured = length frames;
  current_question = first_given question previous.current_question;
  message = message;
  error = problem;
  device = first_given device previous.device;
}

-- Where the worker thread is.
pub data Worker : Type 0 where
  -- no thread, or one that has ended
  absent : Worker
  -- in the service
  capturing : Worker
  -- `_handle_frame`, after the frame is appended; before the second read of the status; before
  -- `_set_status` of a status; before the snapshot is published
  received : CaptureFrame → Worker
  rereading : CaptureFrame → Worker
  -- `_handle_service_status`, before `_set_status`
  reporting : CaptureStatus → Text → Worker
  choosing : CaptureFrame → CaptureStatus → Text → Worker
  publishing : CaptureSnapshot → Worker
  -- `_run`, after the service has returned; before the second check of the status; before
  -- `_set_status` of the last status, inside the `try` or in a handler; before the last snapshot
  -- is published, inside or in a handler
  returned : Worker
  checked : Worker
  finishing : Bool → CaptureStatus → Text → Option Text → Worker
  ending : Bool → CaptureSnapshot → Worker

-- The calls that go on to the service.
pub data Control : Type 0 where
  to_pause to_resume to_stop : Control

-- Where the client is: between calls, in the service, before `_set_status`, before the snapshot is
-- published.
pub data Client : Type 0 where
  ready : Client
  calling : Control → Client
  setting : CaptureStatus → Text → Option Text → Client → Client
  putting : CaptureSnapshot → Client → Client

pub data System : Type 0 where
  system : CaptureSnapshot → List CaptureFrame → Worker → Client → System

abbrev pub is_connecting : CaptureStatus → Bool
is_connecting connecting = true
is_connecting _ = false

abbrev pub is_stopping : CaptureStatus → Bool
is_stopping stopping = true
is_stopping _ = false

-- The statuses that `_run` does not replace by `COMPLETED`.
abbrev pub is_kept : CaptureStatus → Bool
is_kept stopping = true
is_kept stopped = true
is_kept error = true
is_kept no_device = true
is_kept _ = false

-- Where `pause`, `resume` and `stop` go on.
abbrev pub may_pause : CaptureStatus → Bool
may_pause running = true
may_pause connecting = true
may_pause _ = false

abbrev pub may_resume : CaptureStatus → Bool
may_resume paused = true
may_resume _ = false

abbrev pub may_stop : CaptureStatus → Bool
may_stop connecting = true
may_stop running = true
may_stop paused = true
may_stop stopping = true
may_stop _ = false

-- The message of a call.
abbrev pub control_message : Control → Text
control_message to_pause = txt "已暂停"
control_message to_resume = txt "继续采集"
control_message to_stop = txt "正在停止"

-- The failures that `_run` reports.
pub data Failure : Type 0 where
  no_device_found capture_failed : Text → Failure

abbrev pub failure_status : Failure → CaptureStatus
failure_status (no_device_found text) = no_device
failure_status (capture_failed text) = error

abbrev pub failure_message : Failure → Text
failure_message (no_device_found text) = text
failure_message (capture_failed text) = txt "采集失败：" ++ text

abbrev pub failure_text : Failure → Text
failure_text (no_device_found text) = text
failure_text (capture_failed text) = text

unfoldable pub initial : System
unfolding txt
initial =
    system
      (record {
        status = idle;
        frames_captured = 0;
        current_question = none;
        message = [];
        error = none;
        device = none;
      })
      [] absent ready

pub data Step (publishes : CaptureSnapshot → List CaptureFrame → Bool) (starts_fail : Bool)
    : System → System → Type 0 where
  -- `start`, under the lock, without a live thread
  start :
      {n : CaptureSnapshot} {fs : List CaptureFrame}
      → Step publishes starts_fail
          (system n fs absent ready)
          (system (next_snapshot connecting (txt "正在检测设备") none none none n []) [] capturing ready)
  -- `start`, when `on_status` or the start of the thread raises: no thread
  start_raised :
      {n : CaptureSnapshot} {fs : List CaptureFrame}
      → starts_fail ≡ true
      → Step publishes starts_fail
          (system n fs absent ready)
          (system (next_snapshot connecting (txt "正在检测设备") none none none n []) [] absent ready)
  -- `_handle_frame`
  receive :
      {n : CaptureSnapshot} {fs : List CaptureFrame} {c : Client} (f : CaptureFrame)
      → Step publishes starts_fail
          (system n fs capturing c)
          (system n (fs ++ f ∷ []) (received f) c)
  -- `on_frame` raises
  receive_raised :
      {n : CaptureSnapshot} {fs : List CaptureFrame} {c : Client} {f : CaptureFrame} (e : Failure)
      → Step publishes starts_fail (system n fs (received f) c) (
          system n fs
            (finishing true (failure_status e) (failure_message e) (some (failure_text e)))
            c)
  -- `on_frame` or `on_status` raises, and the service goes on
  receive_ignored :
      {n : CaptureSnapshot} {fs : List CaptureFrame} {c : Client} {f : CaptureFrame}
      → Step publishes starts_fail (system n fs (received f) c) (system n fs capturing c)
  first_frame :
      {n : CaptureSnapshot} {fs : List CaptureFrame} {c : Client} {f : CaptureFrame}
      → is_connecting n.status ≡ true
      → Step publishes starts_fail
          (system n fs (received f) c)
          (system n fs (choosing f running (txt "正在采集")) c)
  later_frame :
      {n : CaptureSnapshot} {fs : List CaptureFrame} {c : Client} {f : CaptureFrame}
      → is_connecting n.status ≡ false
      → Step publishes starts_fail (system n fs (received f) c) (system n fs (rereading f) c)
  reread :
      {n : CaptureSnapshot} {fs : List CaptureFrame} {c : Client} {f : CaptureFrame}
      → Step publishes starts_fail
          (system n fs (rereading f) c)
          (system n fs (choosing f n.status []) c)
  choose :
      {n : CaptureSnapshot} {fs : List CaptureFrame} {c : Client} {f : CaptureFrame}
      {st : CaptureStatus} {m : Text}
      → Step publishes starts_fail
          (system n fs (choosing f st m) c)
          (system n fs (publishing (next_snapshot st m none f.question_id f.device n fs)) c)
  publish :
      {n p : CaptureSnapshot} {fs : List CaptureFrame} {c : Client}
      → Step publishes starts_fail (system n fs (publishing p) c) (system p fs capturing c)
  -- `_handle_service_status`: a snapshot of the service's own, or a status
  service_snapshot :
      {n p : CaptureSnapshot} {fs : List CaptureFrame} {c : Client}
      → publishes p fs ≡ true
      → Step publishes starts_fail (system n fs capturing c) (system n fs (publishing p) c)
  service_status :
      {n : CaptureSnapshot} {fs : List CaptureFrame} {c : Client} (st : CaptureStatus) (m : Text)
      → Step publishes starts_fail (system n fs capturing c) (system n fs (reporting st m) c)
  report :
      {n : CaptureSnapshot} {fs : List CaptureFrame} {c : Client} {st : CaptureStatus} {m : Text}
      → Step publishes starts_fail
          (system n fs (reporting st m) c)
          (system n fs (publishing (next_snapshot st m none none none n fs)) c)
  -- `on_status` raises inside the service, which lets it through or goes on; the snapshot is stored
  publish_raised :
      {n p : CaptureSnapshot} {fs : List CaptureFrame} {c : Client} (e : Failure)
      → Step publishes starts_fail (system n fs (publishing p) c) (
          system p fs
            (finishing true (failure_status e) (failure_message e) (some (failure_text e)))
            c)
  -- `_run`, when the service returns or raises
  finish :
      {n : CaptureSnapshot} {fs : List CaptureFrame} {c : Client}
      → Step publishes starts_fail (system n fs capturing c) (system n fs returned c)
  fail :
      {n : CaptureSnapshot} {fs : List CaptureFrame} {c : Client} (e : Failure)
      → Step publishes starts_fail (system n fs capturing c) (
          system n fs
            (finishing true (failure_status e) (failure_message e) (some (failure_text e)))
            c)
  complete :
      {n : CaptureSnapshot} {fs : List CaptureFrame} {c : Client}
      → is_kept n.status ≡ false
      → Step publishes starts_fail
          (system n fs returned c)
          (system n fs (finishing false completed (txt "采集完成") none) c)
  keep :
      {n : CaptureSnapshot} {fs : List CaptureFrame} {c : Client}
      → is_kept n.status ≡ true
      → Step publishes starts_fail (system n fs returned c) (system n fs checked c)
  confirm_stop :
      {n : CaptureSnapshot} {fs : List CaptureFrame} {c : Client}
      → is_stopping n.status ≡ true
      → Step publishes starts_fail
          (system n fs checked c)
          (system n fs (finishing false stopped (txt "已停止") none) c)
  leave :
      {n : CaptureSnapshot} {fs : List CaptureFrame} {c : Client}
      → is_stopping n.status ≡ false
      → Step publishes starts_fail (system n fs checked c) (system n fs absent c)
  conclude :
      {n : CaptureSnapshot} {fs : List CaptureFrame} {c : Client} {handler : Bool}
      {st : CaptureStatus} {m : Text} {e : Option Text}
      → Step publishes starts_fail
          (system n fs (finishing handler st m e) c)
          (system n fs (ending handler (next_snapshot st m e none none n fs)) c)
  end :
      {n p : CaptureSnapshot} {fs : List CaptureFrame} {c : Client} {handler : Bool}
      → Step publishes starts_fail (system n fs (ending handler p) c) (system p fs absent c)
  -- `on_status` raises after the last snapshot is stored: inside the `try` the handler reports it,
  -- in a handler the thread ends by it, as `end` does
  end_raised :
      {n p : CaptureSnapshot} {fs : List CaptureFrame} {c : Client} (e : Failure)
      → Step publishes starts_fail (system n fs (ending false p) c) (
          system p fs
            (finishing true (failure_status e) (failure_message e) (some (failure_text e)))
            c)
  -- `pause`, `resume` and `stop`: the check, then the service, then the status; `stop` sets its
  -- status first
  ask_pause :
      {n : CaptureSnapshot} {fs : List CaptureFrame} {w : Worker}
      → may_pause n.status ≡ true
      → Step publishes starts_fail (system n fs w ready) (system n fs w (calling to_pause))
  ask_resume :
      {n : CaptureSnapshot} {fs : List CaptureFrame} {w : Worker}
      → may_resume n.status ≡ true
      → Step publishes starts_fail (system n fs w ready) (system n fs w (calling to_resume))
  ask_stop :
      {n : CaptureSnapshot} {fs : List CaptureFrame} {w : Worker}
      → may_stop n.status ≡ true
      → Step publishes starts_fail
          (system n fs w ready)
          (system n fs w (setting stopping (control_message to_stop) none (calling to_stop)))
  paused_service :
      {n : CaptureSnapshot} {fs : List CaptureFrame} {w : Worker}
      → Step publishes starts_fail
          (system n fs w (calling to_pause))
          (system n fs w (setting paused (control_message to_pause) none ready))
  resumed_service :
      {n : CaptureSnapshot} {fs : List CaptureFrame} {w : Worker}
      → Step publishes starts_fail
          (system n fs w (calling to_resume))
          (system n fs w (setting running (control_message to_resume) none ready))
  stopped_service :
      {n : CaptureSnapshot} {fs : List CaptureFrame} {w : Worker}
      → Step publishes starts_fail (system n fs w (calling to_stop)) (system n fs w ready)
  -- the service's `pause`, `resume` or `stop` raises, and so does the call
  service_raised :
      {n : CaptureSnapshot} {fs : List CaptureFrame} {w : Worker} {k : Control}
      → Step publishes starts_fail (system n fs w (calling k)) (system n fs w ready)
  -- a service without `pause` or `resume`
  pause_unsupported :
      {n : CaptureSnapshot} {fs : List CaptureFrame} {w : Worker}
      → Step publishes starts_fail
          (system n fs w (calling to_pause))
          (system n fs w (setting error (txt "当前采集服务不支持暂停") (some (txt "pause unsupported")) ready))
  resume_unsupported :
      {n : CaptureSnapshot} {fs : List CaptureFrame} {w : Worker}
      → Step publishes starts_fail (system n fs w (calling to_resume)) (
          system n fs w (setting error (txt "当前采集服务不支持恢复") (some (txt "resume unsupported")) ready))
  set :
      {n : CaptureSnapshot} {fs : List CaptureFrame} {w : Worker} {st : CaptureStatus} {m : Text}
      {e : Option Text} {c : Client}
      → Step publishes starts_fail
          (system n fs w (setting st m e c))
          (system n fs w (putting (next_snapshot st m e none none n fs) c))
  put :
      {n p : CaptureSnapshot} {fs : List CaptureFrame} {w : Worker} {c : Client}
      → Step publishes starts_fail (system n fs w (putting p c)) (system p fs w c)
  -- `on_status` raises, and so does the call: what would follow is left out
  put_raised :
      {n p : CaptureSnapshot} {fs : List CaptureFrame} {w : Worker} {c : Client}
      → Step publishes starts_fail (system n fs w (putting p c)) (system p fs w ready)

-- The states that are reached.
pub data Reachable (publishes : CaptureSnapshot → List CaptureFrame → Bool) (starts_fail : Bool)
    : System → Type 0 where
  at_start : Reachable publishes starts_fail initial
  after :
      {s t : System}
      → Reachable publishes starts_fail s
      → Step publishes starts_fail s t
      → Reachable publishes starts_fail t
