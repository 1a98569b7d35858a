-- ===== src/Desktop/Controller/Invariant.antt =====
-- What holds of the capture controller in every interleaving.
use dingzhen_notebook.Common.{
  ◌≤◌, ◌≡◌, refl, Bool, true, false, ◌&&◌, List, [], ◌∷◌, ◌++◌, length, length-append, arith, ◌⊎◌,
  inl, inr,
}
use dingzhen_notebook.Desktop.Controller.{
  CaptureStatus, idle, connecting, running, paused, stopping, stopped, completed, no_device, error,
  CaptureSnapshot, CaptureFrame, next_snapshot, Worker, absent, capturing, received, rereading,
  choosing, reporting, publishing, returned, checked, finishing, ending, Client, ready, calling,
  setting, putting, System, system, is_connecting, is_kept, Failure, failure_status,
  no_device_found, capture_failed, initial, Step, start, start_raised, receive_raised,
  receive_ignored, service_snapshot, service_status, report, publish_raised, end_raised,
  service_raised, put_raised, receive, first_frame, later_frame, reread, choose, publish, finish,
  fail, complete, keep, confirm_stop, leave, conclude, end, ask_pause, ask_resume, ask_stop,
  paused_service, resumed_service, stopped_service, pause_unsupported, resume_unsupported, set, put,
  Reachable, at_start, after,
}

-- Counts no more frames than there are, and does not say "connecting".
abbrev IsHonest : List CaptureFrame → CaptureSnapshot → Type 0
IsHonest fs p = (p.frames_captured ≤ length fs) × (is_connecting p.status ≡ false)

IsClientFit : List CaptureFrame → Client → Type 0
IsClientFit fs ready = Unit
IsClientFit fs (calling k) = Unit
IsClientFit fs (setting st m e c) = (is_connecting st ≡ false) × IsClientFit fs c
IsClientFit fs (putting p c) = IsHonest fs p × IsClientFit fs c

-- One more frame.
IsClientFit-snoc :
    (fs : List CaptureFrame) (f : CaptureFrame) (c : Client)
    → IsClientFit fs c
    → IsClientFit (fs ++ f ∷ []) c
unfolding IsClientFit
IsClientFit-snoc fs f ready h = tt
IsClientFit-snoc fs f (calling k) h = tt
IsClientFit-snoc fs f (setting st m e c) h = (h.0, IsClientFit-snoc fs f c h.1)
IsClientFit-snoc fs f (putting p c) h =
    let more = length-append fs (f ∷ []) in
    ((omega (arith, more, h.0.0), h.0.1), IsClientFit-snoc fs f c h.1)

kept_is_open : (st : CaptureStatus) → is_kept st ≡ true → is_connecting st ≡ false
kept_is_open idle h = refl
kept_is_open connecting h = cc
kept_is_open running h = refl
kept_is_open paused h = refl
kept_is_open stopping h = refl
kept_is_open stopped h = refl
kept_is_open completed h = refl
kept_is_open no_device h = refl
kept_is_open error h = refl

failed_is_open : (e : Failure) → is_connecting (failure_status e) ≡ false
failed_is_open (no_device_found t) = refl
failed_is_open (capture_failed t) = refl

abbrev is_absent : Worker → Bool
is_absent absent = true
is_absent _ = false

module _ (publishes : CaptureSnapshot → List CaptureFrame → Bool) (starts_fail : Bool) where
  -- Without a worker: not "connecting", unless a start failed.
  abbrev IsRest : CaptureSnapshot → Type 0
  IsRest n = (starts_fail ≡ true) ⊎ (is_connecting n.status ≡ false)

  -- What a worker is about to publish.
  IsWorkerFit : CaptureSnapshot → List CaptureFrame → Worker → Type 0
  IsWorkerFit n fs absent = IsRest n
  IsWorkerFit n fs capturing = Unit
  IsWorkerFit n fs (received f) = Unit
  IsWorkerFit n fs (rereading f) = Unit
  IsWorkerFit n fs (reporting st m) = Unit
  IsWorkerFit n fs (choosing f st m) = Unit
  IsWorkerFit n fs (publishing p) = p.frames_captured ≤ length fs
  IsWorkerFit n fs returned = Unit
  IsWorkerFit n fs checked = is_connecting n.status ≡ false
  IsWorkerFit n fs (finishing handler st m e) = is_connecting st ≡ false
  IsWorkerFit n fs (ending handler p) = IsHonest fs p

  -- The published count is right, and so is what the threads are about to publish.
  IsFit : System → Type 0
  IsFit (system n fs w c) = (n.frames_captured ≤ length fs) × IsWorkerFit n fs w × IsClientFit fs c

  -- A new snapshot that does not say "connecting" suits any worker.
  IsWorkerFit-put :
      (n p : CaptureSnapshot) (fs : List CaptureFrame) (w : Worker)
      → is_connecting p.status ≡ false
      → IsWorkerFit n fs w
      → IsWorkerFit p fs w
  unfolding IsWorkerFit
  IsWorkerFit-put n p fs absent h k = inr h
  IsWorkerFit-put n p fs capturing h k = tt
  IsWorkerFit-put n p fs (received f) h k = tt
  IsWorkerFit-put n p fs (rereading f) h k = tt
  IsWorkerFit-put n p fs (reporting st m) h k = tt
  IsWorkerFit-put n p fs (choosing f st m) h k = tt
  IsWorkerFit-put n p fs (publishing q) h k = k
  IsWorkerFit-put n p fs returned h k = tt
  IsWorkerFit-put n p fs checked h k = h
  IsWorkerFit-put n p fs (finishing handler st m e) h k = k
  IsWorkerFit-put n p fs (ending handler q) h k = k

  -- Every step keeps it, if the service's own snapshots count no frame that it did not deliver.
  Step-IsFit :
      ((p : CaptureSnapshot) (fs : List CaptureFrame)
        → publishes p fs ≡ true
        → p.frames_captured ≤ length fs)
      → (s t : System) → Step publishes starts_fail s t
      → IsFit s
      → IsFit t
  unfolding IsFit IsWorkerFit IsClientFit next_snapshot
  Step-IsFit honest _ _ start h = (omega arith, tt, tt)
  Step-IsFit honest _ _ (start_raised e) h = (omega arith, inl e, tt)
  Step-IsFit honest (system n fs _ c) _ (receive f) h =
      let more = length-append fs (f ∷ []) in
      (omega (arith, more, h.0), tt, IsClientFit-snoc fs f c h.2)
  Step-IsFit honest _ _ (receive_raised e) h = (h.0, failed_is_open e, h.2)
  Step-IsFit honest _ _ receive_ignored h = h
  Step-IsFit honest _ _ (first_frame e) h = (h.0, tt, h.2)
  Step-IsFit honest _ _ (later_frame e) h = h
  Step-IsFit honest _ _ reread h = h
  Step-IsFit honest _ _ choose h = (h.0, omega arith, h.2)
  Step-IsFit honest _ _ publish h = (h.1, tt, h.2)
  Step-IsFit honest (system _ fs _ _) (system _ _ (publishing p) _) (service_snapshot e) h =
      (h.0, honest p fs e, h.2)
  Step-IsFit honest _ _ (service_status st m) h = h
  Step-IsFit honest _ _ report h = (h.0, omega arith, h.2)
  Step-IsFit honest _ _ (publish_raised e) h = (h.1, failed_is_open e, h.2)
  Step-IsFit honest _ _ finish h = (h.0, tt, h.2)
  Step-IsFit honest _ _ (fail e) h = (h.0, failed_is_open e, h.2)
  Step-IsFit honest _ _ (complete e) h = (h.0, refl, h.2)
  Step-IsFit honest (system n fs _ c) _ (keep e) h = (h.0, kept_is_open n.status e, h.2)
  Step-IsFit honest _ _ (confirm_stop e) h = (h.0, refl, h.2)
  Step-IsFit honest _ _ (leave e) h = (h.0, inr h.1, h.2)
  Step-IsFit honest _ _ conclude h = (h.0, (omega arith, h.1), h.2)
  Step-IsFit honest _ _ end h = (h.1.0, inr h.1.1, h.2)
  Step-IsFit honest _ _ (end_raised e) h = (h.1.0, failed_is_open e, h.2)
  Step-IsFit honest _ _ (ask_pause e) h = (h.0, h.1, tt)
  Step-IsFit honest _ _ (ask_resume e) h = (h.0, h.1, tt)
  Step-IsFit honest _ _ (ask_stop e) h = (h.0, h.1, (refl, tt))
  Step-IsFit honest _ _ paused_service h = (h.0, h.1, (refl, tt))
  Step-IsFit honest _ _ resumed_service h = (h.0, h.1, (refl, tt))
  Step-IsFit honest _ _ stopped_service h = (h.0, h.1, tt)
  Step-IsFit honest _ _ service_raised h = (h.0, h.1, tt)
  Step-IsFit honest _ _ pause_unsupported h = (h.0, h.1, (refl, tt))
  Step-IsFit honest _ _ resume_unsupported h = (h.0, h.1, (refl, tt))
  Step-IsFit honest _ _ set h = (h.0, h.1, ((omega arith, h.2.0), h.2.1))
  Step-IsFit honest (system n fs w _) (system p _ _ _) put h =
      (h.2.0.0, IsWorkerFit-put n p fs w h.2.0.1 h.1, h.2.1)
  Step-IsFit honest (system n fs w _) (system p _ _ _) put_raised h =
      (h.2.0.0, IsWorkerFit-put n p fs w h.2.0.1 h.1, tt)

  Reachable-IsFit :
      ((p : CaptureSnapshot) (fs : List CaptureFrame)
        → publishes p fs ≡ true
        → p.frames_captured ≤ length fs)
      → (s : System) → Reachable publishes starts_fail s
      → IsFit s
  unfolding IsFit IsWorkerFit IsClientFit initial
  Reachable-IsFit honest _ at_start = (omega arith, inr refl, tt)
  Reachable-IsFit honest t (after {s} r step) =
      Step-IsFit honest s t step (Reachable-IsFit honest s r)

  -- The published count is at most the number of frames, and without a worker the status does not
  -- say "connecting", unless a start failed.
  pub IsSound : System → Type 0
  IsSound (system n fs w c) =
      (n.frames_captured ≤ length fs)
      × ((starts_fail ≡ true) ⊎ ((is_connecting n.status && is_absent w) ≡ false))

  not_both : (b : Bool) → (b && false) ≡ false
  not_both b = ground arith

  present :
      (n : CaptureSnapshot) (fs : List CaptureFrame) (w : Worker)
      → IsWorkerFit n fs w
      → (starts_fail ≡ true) ⊎ ((is_connecting n.status && is_absent w) ≡ false)
  unfolding IsWorkerFit
  present n fs absent (inl e) = inl e
  present n fs absent (inr k) = inr (rw k refl)
  present n fs capturing k = inr (not_both (is_connecting n.status))
  present n fs (received f) k = inr (not_both (is_connecting n.status))
  present n fs (rereading f) k = inr (not_both (is_connecting n.status))
  present n fs (reporting st m) k = inr (not_both (is_connecting n.status))
  present n fs (choosing f st m) k = inr (not_both (is_connecting n.status))
  present n fs (publishing p) k = inr (not_both (is_connecting n.status))
  present n fs returned k = inr (not_both (is_connecting n.status))
  present n fs checked k = inr (not_both (is_connecting n.status))
  present n fs (finishing handler st m e) k = inr (not_both (is_connecting n.status))
  present n fs (ending handler p) k = inr (not_both (is_connecting n.status))

  -- In whatever order the worker thread and a client take their steps, and wherever the service or
  -- a callback raises: if the snapshots that the service publishes itself count no more frames than
  -- it delivered, then the published snapshot never counts more frames than were received since the
  -- last start; and the status is never "connecting" when no worker is alive, unless `start` itself
  -- may fail.
  pub Reachable-IsSound :
      ((p : CaptureSnapshot) (fs : List CaptureFrame)
        → publishes p fs ≡ true
        → p.frames_captured ≤ length fs)
      → (s : System) → Reachable publishes starts_fail s
      → IsSound s
  unfolding IsSound IsFit
  Reachable-IsSound honest (system n fs w c) r =
      let h = Reachable-IsFit honest (system n fs w c) r in (h.0, present n fs w h.1)
