-- ===== src/Examples/Capturing.antt =====
-- A capture session on concrete calls.
use dingzhen_notebook.Common.{
  ℕ, Text, txt, text_beq, Option, none, some, List, [], ◌∷◌, true, ◌≡◌, refl, arith,
}
use dingzhen_notebook.Json.{Json, str, obj, end, field}
use dingzhen_notebook.Examples.Samples.{capture_session}
use dingzhen_notebook.Capture.Session.{
  created, stopped, Call, call_start, call_stop, call_record_screenshot, perform_all,
}
use dingzhen_notebook.Capture.Session.States.{Steps, is_over, perform_all-Steps, perform_all-over}
use dingzhen_notebook.Capture.Session.Frames.{
  IsCounted, perform_all-IsCounted, recordings, repeats, newest_first, consecutive_unchanged_lem,
}
use dingzhen_notebook.Capture.Session.Secrets.{
  safe_metadata, safe_value, safe_metadata_lem, secret_free, secret_free_fields,
}
use dingzhen_notebook.Capture.Session.Persistence.{
  IsPersistable, to_dict, from_dict, from_dict-to_dict,
}

abbrev calls : List Call
calls =
    call_start 6
    ∷ call_record_screenshot 7 (txt "h1") (some (txt "0001.png")) none
    ∷ call_record_screenshot 8 (txt "h1") none none
    ∷ call_stop 9 (some (txt "done"))
    ∷ call_start 10
    ∷ []

perform_all-Steps_example : Steps calls created (perform_all calls capture_session).status
perform_all-Steps_example = perform_all-Steps calls capture_session

perform_all-over_example :
    is_over (perform_all calls (record capture_session { status = stopped })).status ≡ true
perform_all-over_example = perform_all-over calls (record capture_session { status = stopped }) refl

capture_session-IsCounted : IsCounted capture_session
capture_session-IsCounted = record {
  frames = refl;
  paths = omega arith;
  newest = refl;
  unchanged = omega arith;
}

perform_all-IsCounted_example : IsCounted (perform_all calls capture_session)
perform_all-IsCounted_example =
    perform_all-IsCounted calls capture_session capture_session-IsCounted

abbrev shots : List (ℕ × Text × Option Text)
shots = (1, txt "h1", none) ∷ (2, txt "h2", none) ∷ (3, txt "h2", some (txt "3.png")) ∷ []

consecutive_unchanged_lem_example :
    (perform_all (recordings shots) capture_session).consecutive_unchanged
    ≡ repeats (newest_first shots [])
consecutive_unchanged_lem_example = consecutive_unchanged_lem shots capture_session refl refl

abbrev leak : Json
leak = obj (field (txt "app") (str (txt "fenbi")) (field (txt "Access-Token") (str (txt "x")) end))

safe_metadata_lem_example :
    (secret_free (safe_metadata leak none) ≡ true)
    × (safe_metadata (safe_metadata leak none) none ≡ safe_metadata leak none)
safe_metadata_lem_example = safe_metadata_lem leak none

leak_removed : safe_metadata leak none ≡ obj (field (txt "app") (str (txt "fenbi")) end)
unfolding safe_metadata safe_value txt text_beq
leak_removed = refl

abbrev unary : ℕ → Text
unary t = t ∷ []

abbrev read_unary : Text → Option ℕ
read_unary [] = none
read_unary (t ∷ s) = some t

persistable : IsPersistable (λ p. p) capture_session
unfolding txt secret_free_fields
persistable = record {
  id = refl;
  root = refl;
  device = tt;
  hashes = tt;
  paths = tt;
  last_hash = tt;
  error = tt;
  metadata = refl;
}

from_dict-to_dict_example :
    from_dict
      (λ j. txt "None")
      unary
      read_unary
      (λ p. p)
      9
      (txt "capture_2")
      none
      (to_dict (λ j. txt "None") unary read_unary (λ p. p) capture_session)
    ≡ some (record capture_session { state_path = none })
from_dict-to_dict_example =
    from_dict-to_dict (λ j. txt "None") unary read_unary (λ p. p) (λ t. refl) 9 (txt "capture_2")
      none capture_session persistable
