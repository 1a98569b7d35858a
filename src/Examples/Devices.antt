-- ===== src/Examples/Devices.antt =====
-- Captures from a device whose screen stands still.
use dingzhen_notebook.Common.{
  text_beq, ℕ, Text, txt, Option, none, some, List, [], ◌∷◌, true, ◌≡◌, refl, arith,
}
use dingzhen_notebook.Capture.Session.{CaptureSession, Call, perform_all}
use dingzhen_notebook.Capture.Adb.{
  Shot, shot, Action, again, Answer, act, Run, run, fresh, continued,
}
use dingzhen_notebook.Capture.Adb.Settled.{IsSettled, run-IsSettled}
use dingzhen_notebook.Capture.Adb.Unchanged.{
  IsFollowing, IsStopped, observe_all, record_frame, observe_all-perform_all, run-IsStopped,
}
use dingzhen_notebook.Common.Strings.{starts_with, lower, is_space}
use dingzhen_notebook.Capture.Adb.Devices.{
  DeviceInfo, device_line, parse_devices_output, print_devices,
}
use dingzhen_notebook.Capture.Adb.Listed.{IsShown, parse_devices_output-print_devices}
use dingzhen_notebook.Examples.Samples.{capture_session}

abbrev screen : ℕ → Text → Shot
screen n serial = shot (txt "h")

abbrev input : Text → Action → Option Text
input serial action = none

abbrev phones : List Text
phones = txt "phone" ∷ []

abbrev makes : Text → Option Text
makes path = none

-- A disk that is full.
abbrev unsaved : Text → CaptureSession → Option Text
unsaved path s = some (txt "no space left")

abbrev go_on : ℕ → Text → CaptureSession → Answer × List Call
go_on n hash s = (act again, [])

abbrev clock : ℕ → ℕ
clock n = n

run-IsSettled_example :
    (r : Run) × (run screen input phones go_on clock none 5 2 true capture_session ≡ some r)
    × IsSettled 5 r
run-IsSettled_example =
    run-IsSettled screen input phones go_on clock none 5 2 true capture_session (omega arith)

run-IsStopped_example :
    (r : Run) × (run screen input phones go_on clock none 5 2 true capture_session ≡ some r)
    × IsStopped screen input phones go_on clock (txt "h") (λ n serial. refl) (λ n h s. refl) 3 r
run-IsStopped_example =
    run-IsStopped screen input phones go_on clock (txt "h") (λ n serial. refl) (λ n h s. refl) none
      (txt "phone") 5 2 capture_session refl refl refl (omega arith) (omega arith)

observe_all-perform_all_example :
    IsFollowing
      (observe_all
        ((txt "h", 1, none) ∷ (txt "h", 2, none) ∷ [])
        (continued capture_session (fresh 2)))
      (perform_all
        (record_frame (txt "h", 1, none) ∷ record_frame (txt "h", 2, none) ∷ [])
        capture_session)
observe_all-perform_all_example =
    observe_all-perform_all ((txt "h", 1, none) ∷ (txt "h", 2, none) ∷ []) (fresh 2) capture_session

abbrev phone : DeviceInfo
phone = record {
  serial = txt "R58";
  state = txt "device";
  product = none;
  model = some (txt "Pixel:4");
  device = some (txt "flame");
  transport_id = some (txt "1");
  screen_size = none;
  density = none;
}

phone-IsShown : IsShown phone
unfolding device_line starts_with lower is_space txt text_beq
phone-IsShown = record {
  serial_word = (refl, (refl, (refl, tt)));
  state_word = (refl, (refl, (refl, (refl, (refl, (refl, tt))))));
  one_state = refl;
  product_value = tt;
  model_value = (refl, (refl, (refl, (refl, (refl, (refl, (refl, tt)))))));
  device_value = (refl, (refl, (refl, (refl, (refl, tt)))));
  transport_value = (refl, tt);
  no_size = refl;
  no_density = refl;
  no_heading = refl;
}

parse_devices_output-print_devices_example :
    parse_devices_output (print_devices (phone ∷ phone ∷ [])) ≡ phone ∷ phone ∷ []
parse_devices_output-print_devices_example =
    parse_devices_output-print_devices (phone ∷ phone ∷ []) (phone-IsShown, (phone-IsShown, tt))
