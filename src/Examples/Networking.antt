-- ===== src/Examples/Networking.antt =====
-- Uploads of frames in the local network, with texts in place of digests.
use dingzhen_notebook.Common.{
  ℕ, Bool, true, ◌||◌, elem, pair_eq, text_eq, Text, txt, text_beq, none, some, [], ◌∷◌, ◌++◌, ◌≡◌,
  refl, count, arith,
}
use dingzhen_notebook.Common.Dict.{lookup}
use dingzhen_notebook.Json.{Json}
use dingzhen_notebook.Capture.Lan.{
  Moment, Write, written, failed, admit, Upload, Request, Receiver, handle_post, serve, store,
}
use dingzhen_notebook.Capture.Lan.Safety.{
  IsUnchanged, IsAuthentic, handle_post-IsAuthentic, handle_post-refused,
}
use dingzhen_notebook.Capture.Lan.Collected.{is_received, collected, is_received-serve}
use dingzhen_notebook.Capture.Lan.Received.{IsReceived, serve-IsReceived}

abbrev hmac : Text → Text → Text
hmac secret message = txt "abc"

abbrev sha256 : Text → Text
sha256 body = body

abbrev dump : Json → Text
dump v = []

abbrev path_text : Text → Text → Text
path_text task name = task ++ b'/' ∷ name

abbrev receiver : Receiver
receiver = record { secret = txt "key"; received = []; completed = []; files = []; folders = [] }

abbrev makes : Text → Bool
makes task = true

abbrev writes : Text → Text → Write
writes path content = written

-- A moment at which all writes succeed.
abbrev at : ℕ → Moment
at n = record { now = n; makes = makes; writes = writes }

-- A full disk.
abbrev full : Text → Text → Write
full path content = failed none

abbrev later : Moment
later = record { now = 130; makes = makes; writes = full }

abbrev request : Request
request = record {
  path = txt "/capture/t1/0007";
  content_length = some (txt "3");
  checksum = some (txt "PNG");
  timestamp = some (txt "100");
  signature = some (txt "ABC");
  stream = txt "png";
}

abbrev unsigned : Request
unsigned = record request { signature = none }

handle_post-refused_example :
    IsUnchanged hmac sha256 dump path_text
      (admit hmac sha256 dump path_text 130 (txt "key") request)
      (handle_post hmac sha256 dump path_text later request receiver).0
      receiver
      (handle_post hmac sha256 dump path_text later request receiver).1
handle_post-refused_example = handle_post-refused hmac sha256 dump path_text later request receiver

handle_post-IsAuthentic_example :
    (task : Text) × (item : Upload) × (checksum : Text) × (body : Text) × IsAuthentic hmac sha256
      dump path_text 120
      (txt "key")
      request
      task
      item
      body
    × ((handle_post hmac sha256 dump path_text (at 120) request receiver).1
        ≡ (store hmac sha256 dump path_text (at 120) task item checksum body receiver).1)
unfolding handle_post txt text_beq
handle_post-IsAuthentic_example =
    handle_post-IsAuthentic hmac sha256 dump path_text (at 120) request receiver refl

empty-IsReceived : IsReceived path_text receiver
unfolding lookup count
empty-IsReceived = record {
  listed = λ task. record { ordered = tt; once = λ a. omega arith };
  written_files = λ task. tt;
}

serve-IsReceived_example : IsReceived path_text (
    serve hmac sha256 dump path_text
      ((at 120, request) ∷ (at 121, request) ∷ (later, request) ∷ [])
      receiver)
serve-IsReceived_example =
    serve-IsReceived hmac sha256 dump path_text
      ((at 120, request) ∷ (at 121, request) ∷ (later, request) ∷ []) receiver empty-IsReceived

is_received-serve_example :
    is_received (txt "t1") (txt "000007.png") (
      serve hmac sha256 dump path_text
        ((at 120, unsigned) ∷ (at 121, request) ∷ (later, request) ∷ [])
        receiver)
    ≡ (is_received (txt "t1") (txt "000007.png") receiver
        || elem
            (txt "t1", txt "000007.png")
            (collected hmac sha256 dump path_text
              (txt "key")
              ((at 120, unsigned) ∷ (at 121, request) ∷ (later, request) ∷ [])))
is_received-serve_example =
    is_received-serve hmac sha256 dump path_text (txt "t1") (txt "000007.png")
      ((at 120, unsigned) ∷ (at 121, request) ∷ (later, request) ∷ []) receiver
