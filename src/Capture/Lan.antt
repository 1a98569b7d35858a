-- ===== src/Capture/Lan.antt =====
-- The receiver of frames in the local network (packages/capture/lan_auth.py, lan_server.py).
-- Parameters stand for Python's libraries: `hmac` (the hexadecimal HMAC-SHA256 of a message under a
-- secret), `sha256` (the hexadecimal digest), `dump` (`json.dumps`), `path_text` (the text of the path of a task's file). A `Moment` is what a request
-- meets: the clock and the file system. Bytes are a `Text`.
pub mod Safety
pub mod Received
pub mod Collected
use dingzhen_notebook.Common.{
  ℕ, suc, ◌+◌, ◌-◌, Bool, true, false, not, ◌&&◌, ◌||◌, Option, none, some, List, [], ◌∷◌, ◌++◌,
  map, Text, text_eq, pair_eq, ◌==◌, txt, leb, ltb, nat_beq, if◌then◌else◌, is_empty, all, elem,
  length, take, add_key,
}
use dingzhen_notebook.Common.Int.{ℤ, pos, negsuc}
use dingzhen_notebook.Common.Dict.{Dict, lookup, insert}
use dingzhen_notebook.Common.Sort.{sort, text_order}
use dingzhen_notebook.Common.Strings.{strip, strip_by, rstrip_by, lower, upper, starts_with}
use dingzhen_notebook.Common.Decimal.{decimal, decimal_ℤ, padded, is_digit, number_from}
use dingzhen_notebook.Json.{Json, str, arr, obj, from_list, field, end, to_int}
use dingzhen_notebook.Core.Ids.{is_safe}

-- What `sign_lan_request` signs.
unfoldable pub signed_message : Text → Text → ℤ → Text → Text
unfolding upper decimal_ℤ
signed_message method path timestamp checksum =
    upper method ++ 10 ∷ (path ++ 10 ∷ (decimal_ℤ timestamp ++ 10 ∷ checksum))

unfoldable pub is_ascii : Text → Bool
unfolding all
is_ascii s = all (λ c. ltb c 128) s

-- The rest of a text after a prefix.
unfoldable pub after_prefix : Text → Text → Option Text
after_prefix [] s = some s
after_prefix (c ∷ p) [] = none
after_prefix (c ∷ p) (d ∷ s) = let rest = after_prefix p s in if nat_beq c d then rest else none

-- The text before the first `c`, and the text behind it.
unfoldable pub split_at : ℕ → Text → Option (Text × Text)
split_at c [] = none
split_at c (d ∷ s) =
    let rest = split_at c s in
    if nat_beq c d then some ([], s) else elim rest [ none ↦ none | some (a, b) ↦ some (d ∷ a, b) ]

-- Where `$` may match: a last newline is left out.
unfoldable pub chomp : Text → Text
chomp [] = []
chomp (c ∷ []) = if nat_beq c 10 then [] else c ∷ []
chomp (c ∷ d ∷ s) = c ∷ chomp (d ∷ s)

-- What is uploaded: a frame with its number, or the end of a task.
pub data Upload : Type 0 where
  frame : Text → Upload
  complete : Upload

unfoldable pub parse_item : Text → Option Upload
unfolding txt all is_digit
parse_item s =
    if s == txt "complete"
    then some complete
    else if not (is_empty s) && all is_digit s
    then some (frame s)
    else none

abbrev pub task_with : Text → Option Upload → Option (Text × Upload)
task_with task none = none
task_with task (some item) =
    if leb 1 (length task) && leb (length task) 80 && all is_safe task
    then some (task, item)
    else none

-- `_TASK_RE.match(path)`
unfoldable pub parse_task : Text → Option (Text × Upload)
unfolding after_prefix split_at parse_item chomp txt all is_safe
parse_task path = elim (after_prefix (txt "/capture/") path) [
  | none ↦ none
  | some rest ↦ elim (split_at b'/' rest) [
    | none ↦ none
    | some (task, item) ↦ task_with task (parse_item (chomp item))
  ]
]

abbrev pub item_text : Upload → Text
item_text (frame digits) = digits
item_text complete = txt "complete"

-- `path` here is the path of the request's URL. A header is `none` when it is absent.
pub record Request : Type 0 where
  pub path : Text
  pub content_length : Option Text
  pub checksum : Option Text
  pub timestamp : Option Text
  pub signature : Option Text
  pub stream : Text

-- A request that is not accepted: an error reply, or an exception in the handler and no answer.
pub data Refusal : Type 0 where
  send_error : ℕ → Text → Refusal
  dropped : Refusal

pub data Reply : Type 0 where
  rejected : Refusal → Reply
  -- 200, with the checksum
  accepted : Text → Reply

-- How far a request gets before anything is stored.
pub data Admission : Type 0 where
  refused : Refusal → Admission
  -- task, item, checksum and body
  admitted : Text → Upload → Text → Text → Admission

-- What becomes of a write: an exception may leave a file behind, with a part of the content.
pub data Write : Type 0 where
  written : Write
  failed : Option Text → Write

-- The clock's reading, whether the folder of a task can be made, and what becomes of the write of a
-- content to a path.
pub record Moment : Type 0 where
  pub now : ℕ
  pub makes : Text → Bool
  pub writes : Text → Text → Write

-- `received` holds the names of the files in each task's folder, `files` what was written, by its
-- path, `folders` the tasks whose folder was made.
pub record Receiver : Type 0 where
  pub secret : Text
  pub received : Dict Text (List Text)
  pub completed : List Text
  pub files : Dict Text Text
  pub folders : List Text

-- `header or ""`
abbrev pub header : Option Text → Text
header none = []
header (some s) = s

-- `int(headers.get("Content-Length") or 0)`
unfoldable pub content_length : Option Text → Option ℤ
unfolding to_int
content_length h = if is_empty (header h) then some (pos 0) else to_int (str (header h))

abbrev pub max_body : ℕ
max_body = 8_388_608

-- `length < 0 or length > _MAX_BODY`
abbrev pub bad_length : ℤ → Bool
bad_length (pos n) = ltb max_body n
bad_length (negsuc n) = true

abbrev pub body_of : ℤ → Text → Text
body_of (pos n) stream = take n stream
body_of (negsuc n) stream = []

-- `abs(now - timestamp)`
abbrev pub skew : ℕ → ℤ → ℕ
skew now (pos t) = (now - t) + (t - now)
skew now (negsuc t) = now + suc t

abbrev pub names_of : Option (List Text) → List Text
names_of none = []
names_of (some names) = names

-- `if destination not in frames: frames.append(destination); frames.sort()`
unfoldable pub with_frame : Text → List Text → List Text
unfolding elem sort
with_frame name names = if elem name names then names else sort text_order (names ++ name ∷ [])

unfoldable pub frame_name : Text → Text
unfolding padded number_from txt
frame_name digits = padded 6 (number_from 0 digits) ++ txt ".png"

-- The files after a write.
unfoldable pub put_file : Text → Text → Write → Dict Text Text → Dict Text Text
unfolding insert
put_file path content written files = insert path content files
put_file path content (failed none) files = files
put_file path content (failed (some part)) files = insert path part files

-- The answer when a write is the last thing to do.
unfoldable pub reply_to : Write → Text → Reply
reply_to written checksum = accepted checksum
reply_to (failed part) checksum = rejected dropped

module _ (hmac : Text → Text → Text) (sha256 : Text → Text) (dump : Json → Text)
    (path_text : Text → Text → Text) where
  unfoldable pub sign_lan_request : Text → Text → Text → ℤ → Text → Text
  unfolding signed_message
  sign_lan_request secret method path timestamp checksum =
      hmac secret (signed_message method path timestamp checksum)

  -- `none` is the `UnicodeEncodeError` of a signature that is not ASCII.
  unfoldable pub verify_lan_request : Text → Text → Text → Text → ℤ → Text → Option Bool
  unfolding sign_lan_request strip lower is_ascii
  verify_lan_request secret signature method path timestamp checksum =
      let actual = lower (strip signature) in
      if is_ascii actual
      then some (sign_lan_request secret method path timestamp checksum == actual)
      else none

  -- The path that the signature covers, built from the parts.
  unfoldable pub signed_path : Text → Upload → Text
  unfolding txt
  signed_path task item = txt "/capture/" ++ (task ++ b'/' ∷ item_text item)

  -- The content of a task's `COMPLETE.json`.
  unfoldable pub summary : Text → Receiver → Text
  unfolding lookup from_list txt
  summary task r = dump (
      obj (
        field (txt "task_id") (str task) (
          field (txt "frames")
            (arr
              (from_list (map (λ f. str (path_text task f)) (names_of (lookup task r.received)))))
            end)))

  -- In the folder of the task: a task is finished before its summary is written, and a frame is
  -- listed when it is written.
  unfoldable pub store_in : Moment → Text → Upload → Text → Text → Receiver → Reply × Receiver
  unfolding insert lookup add_key with_frame frame_name summary put_file reply_to txt
  store_in m task complete checksum body r =
      if checksum == sha256 []
      then (let path = path_text task (txt "COMPLETE.json") in
          let content = summary task r in
          let result = m.writes path content in
          (
            reply_to result checksum,
            record r {
              completed = add_key r.completed task;
              files = put_file path content result r.files;
            },
          ))
      else (rejected (send_error 400 (txt "checksum_mismatch")), r)
  store_in m task (frame digits) checksum body r =
      let name = frame_name digits in
      let path = path_text task name in
      elim (m.writes path body) [
        | failed part ↦
            (rejected dropped, record r { files = put_file path body (failed part) r.files })
        | written ↦ (
          accepted checksum,
          record r {
            received = insert task (with_frame name (names_of (lookup task r.received))) r.received;
            files = put_file path body written r.files;
          },
        )
      ]

  -- What an authentic request does: its folder is made first.
  unfoldable pub store : Moment → Text → Upload → Text → Text → Receiver → Reply × Receiver
  unfolding store_in add_key
  store m task item checksum body r =
      if m.makes task
      then store_in m task item checksum body (record r { folders = add_key r.folders task })
      else (rejected dropped, r)

  -- The checks of the time, the signature and the body.
  unfoldable pub authenticate : ℕ → Text → Text → Upload → Text → Text → Text → ℤ → Admission
  unfolding verify_lan_request signed_path txt
  authenticate now secret task item body checksum signature timestamp =
      if ltb 300 (skew now timestamp)
      then refused (send_error 401 (txt "timestamp_skew"))
      else elim (verify_lan_request secret signature (txt "POST") (signed_path task item) timestamp
          checksum) [
            | none ↦ refused dropped
            | some valid ↦
                if not valid
                then refused (send_error 401 (txt "bad_signature"))
                else if sha256 body == checksum
                then admitted task item checksum body
                else refused (send_error 400 (txt "checksum_mismatch"))
          ]

  -- `_handle_post` up to the digest of the body
  unfoldable pub admit : ℕ → Text → Request → Admission
  unfolding parse_task content_length authenticate strip lower to_int txt
  admit now secret q = elim (parse_task q.path) [
    | none ↦ refused (send_error 404 (txt "not_found"))
    | some (task, item) ↦ elim (content_length q.content_length) [
      | none ↦ refused dropped
      | some n ↦
          if bad_length n
          then refused (send_error 413 (txt "payload_too_large"))
          else elim (to_int (str (header q.timestamp))) [
            | none ↦ refused (send_error 401 (txt "bad_timestamp"))
            | some timestamp ↦
                authenticate now secret task item (body_of n q.stream)
                  (lower (strip (header q.checksum))) (header q.signature) timestamp
          ]
    ]
  ]

  -- `_handle_post`
  unfoldable pub handle_post : Moment → Request → Receiver → Reply × Receiver
  unfolding admit store
  handle_post m q r = elim (admit m.now r.secret q) [
    | refused reason ↦ (rejected reason, r)
    | admitted task item checksum body ↦ store m task item checksum body r
  ]

  -- Any requests, each at its moment.
  unfoldable pub serve : List (Moment × Request) → Receiver → Receiver
  unfolding handle_post
  serve [] r = r
  serve ((m, q) ∷ qs) r = serve qs (handle_post m q r).1
