-- ===== src/Capture/Session/Persistence.antt =====
-- Checkpoints and new sessions: `to_dict`, `from_dict` and `create`. What the program takes from
-- Python is a parameter: `render` (`str()` of a value that is no string), `iso` and `parse_iso` (the
-- ISO text of an instant), `expand` (`str(Path(...).expanduser())`), `child` (`path / name`).
use dingzhen_notebook.Common.{
  ℕ, ◌≡◌, refl, ap, sym, not, nat_beq, nat_beq_iff, Bool-cases, inl, inr, true, false, Option, none,
  some, List, [], ◌∷◌, map, Text, text_eq, text_beq, ◌==◌, txt, is_empty, if◌then◌else◌, select,
  All,
}
use dingzhen_notebook.Common.Int.{ℤ, pos}
use dingzhen_notebook.Json.{
  Json, null, boolean, integer, real, str, arr, obj, nil, Fields, end, field, to_list, from_list,
  get_field, get_or, truthy, to_int, text_of,
}
use dingzhen_notebook.Capture.Session.{
  CaptureSessionStatus, created, running, paused, stopped, completed, error, status_value,
  CaptureSession, at_least_0,
}
use dingzhen_notebook.Capture.Session.Secrets.{safe_metadata, secret_free_fields, safe_fields_free}

infixl 10 ◌>>=◌
abbrev pub ◌>>=◌ {ℓ κ} : {A : Type ℓ} {B : Type κ} → Option A → (A → Option B) → Option B
none >>= f = none
some a >>= f = f a

-- A text or `None`.
abbrev pub optional : Option Text → Json
optional none = null
optional (some s) = str s

abbrev pub strings : List Text → Json
strings xs = arr (from_list (map (λ s. str s) xs))

-- `safe_metadata if isinstance(safe_metadata, dict) else {}`
abbrev pub object_or_empty : Json → Fields
object_or_empty (obj d) = d
object_or_empty _ = end

-- `CaptureSessionStatus(text)`, or `CREATED`
unfoldable pub status_of : Text → CaptureSessionStatus
unfolding txt
status_of s =
    if s == txt "running"
    then running
    else if s == txt "paused"
    then paused
    else if s == txt "stopped"
    then stopped
    else if s == txt "completed"
    then completed
    else if s == txt "error"
    then error
    else created

-- `int(value or 0)`; `none` is the exception.
unfoldable pub int_or_0 : Json → Option ℤ
unfolding truthy to_int
int_or_0 v = if truthy v then to_int v else some (pos 0)

abbrev pub chars : Text → List Json
chars [] = []
chars (c ∷ s) = str (c ∷ []) ∷ chars s

abbrev pub key_list : Fields → List Json
key_list end = []
key_list (field k v d) = str k ∷ key_list d

-- What `for item in value` goes through; `none` is the `TypeError`.
abbrev pub iterate : Json → Option (List Json)
iterate (arr xs) = some (to_list xs)
iterate (str s) = some (chars s)
iterate (obj d) = some (key_list d)
iterate null = none
iterate (boolean b) = none
iterate (integer z) = none
iterate (real z n) = none

-- `value if value is a mapping else {}`
abbrev pub mapping_of : Json → Fields
mapping_of (obj d) = d
mapping_of _ = end

module _ (render : Json → Text) (iso : ℕ → Text) (parse_iso : Text → Option ℕ)
    (expand : Text → Text) where
  unfoldable pub to_dict : CaptureSession → Fields
  unfolding txt from_list safe_metadata status_value
  to_dict s = field (txt "schema_version") (integer (pos 1)) (
      field (txt "session_id") (str s.session_id) (
        field (txt "root") (optional s.root) (
          field (txt "device_serial") (optional s.device_serial) (
            field (txt "status") (str (status_value s.status)) (
              field (txt "current_question") (integer (pos s.current_question)) (
                field (txt "current_step") (str s.current_step) (
                  field (txt "frame_count") (integer (pos s.frame_count)) (
                    field (txt "screenshot_hashes") (strings s.screenshot_hashes) (
                      field (txt "screenshot_paths") (strings s.screenshot_paths) (
                        field (txt "last_screenshot_hash") (optional s.last_screenshot_hash) (
                          field (txt "consecutive_unchanged")
                            (integer (pos s.consecutive_unchanged))
                            (field (txt "error") (optional s.error) (
                              field (txt "metadata")
                                (obj (object_or_empty (safe_metadata (obj s.metadata) none)))
                                (field (txt "created_at") (str (iso s.created_at)) (
                                  field (txt "updated_at") (str (iso s.updated_at))
                                    end)))))))))))))))

  -- `_parse_datetime(value)` on a JSON value, at the instant `now`
  abbrev pub parse_datetime : ℕ → Json → ℕ
  parse_datetime now (str s) = elim (parse_iso s) [ none ↦ now | some t ↦ t ]
  parse_datetime now null = now
  parse_datetime now (boolean b) = now
  parse_datetime now (integer z) = now
  parse_datetime now (real z n) = now
  parse_datetime now (arr xs) = now
  parse_datetime now (obj d) = now

  -- `str(payload[key]) if payload.get(key) else None`
  unfoldable pub text_or_none : Text → Fields → Option Text
  unfolding get_or truthy
  text_or_none key d =
      let v = get_or key null d in if truthy v then some (text_of render v) else none

  -- `[str(item) for item in payload.get(key, []) if item]`
  unfoldable pub texts_at : Text → Fields → Option (List Text)
  unfolding get_or select truthy
  texts_at key d = do
    items ← iterate (get_or key (arr nil) d)
    some (map (text_of render) (select truthy items))

  -- `Path(root).expanduser()`; what is neither a text nor `None` is a `TypeError`.
  abbrev pub path_of : Json → Option (Option Text)
  path_of null = some none
  path_of (str s) = some (some (expand s))
  path_of _ = none

  unfoldable pub from_dict : ℕ → Text → Option Text → Fields → Option CaptureSession
  unfolding get_or txt text_or_none texts_at int_or_0 status_of
  from_dict now fresh_id state_path d = do
    root ← path_of (get_or (txt "root") null d)
    current_question ← int_or_0 (get_or (txt "current_question") (integer (pos 0)) d)
    frame_count ← int_or_0 (get_or (txt "frame_count") (integer (pos 0)) d)
    hashes ← texts_at (txt "screenshot_hashes") d
    paths ← texts_at (txt "screenshot_paths") d
    unchanged ← int_or_0 (
        get_or (txt "consecutive_unchanged") (get_or (txt "unchanged_count") (integer (pos 0)) d) d)
    some (record {
      session_id = elim (text_or_none (txt "session_id") d) [ none ↦ fresh_id | some s ↦ s ];
      state_path = elim state_path [ none ↦ none | some p ↦ some (expand p) ];
      root = root;
      device_serial = text_or_none (txt "device_serial") d;
      status = status_of (text_of render (get_or (txt "status") (str (txt "created")) d));
      current_question = at_least_0 current_question;
      current_step = text_of render (get_or (txt "current_step") (str (txt "start")) d);
      frame_count = at_least_0 frame_count;
      screenshot_hashes = hashes;
      screenshot_paths = paths;
      last_screenshot_hash = text_or_none (txt "last_screenshot_hash") d;
      consecutive_unchanged = at_least_0 unchanged;
      error = text_or_none (txt "error") d;
      metadata = mapping_of (get_or (txt "metadata") null d);
      created_at = parse_datetime now (get_or (txt "created_at") null d);
      updated_at = parse_datetime now (get_or (txt "updated_at") null d);
    })

abbrev pub HasText : Text → Type 0
HasText s = is_empty s ≡ false

abbrev pub option_list {ℓ} : {A : Type ℓ} → Option A → List A
option_list none = []
option_list (some a) = a ∷ []

-- What reads back as it was: no empty text, no credential, a root that needs no expanding.
pub record IsPersistable (expand : Text → Text) (s : CaptureSession) : Type 0 where
  pub id : is_empty s.session_id ≡ false
  pub root : elim s.root [ none ↦ none | some p ↦ some (expand p) ] ≡ s.root
  pub device : All HasText (option_list s.device_serial)
  pub hashes : All HasText s.screenshot_hashes
  pub paths : All HasText s.screenshot_paths
  pub last_hash : All HasText (option_list s.last_screenshot_hash)
  pub error : All HasText (option_list s.error)
  pub metadata : secret_free_fields s.metadata ≡ true

read_optional :
    (render : Json → Text) (o : Option Text)
    → All HasText (option_list o)
    → (if truthy (optional o) then some (text_of render (optional o)) else none) ≡ o
unfolding truthy
read_optional render none h = refl
read_optional render (some s) h = rw (h.0) refl

read_strings :
    (render : Json → Text) (xs : List Text)
    → All HasText xs
    → map (text_of render) (select truthy (to_list (from_list (map (λ s. str s) xs)))) ≡ xs
unfolding truthy select to_list from_list
read_strings render [] h = refl
read_strings render (x ∷ xs) h = rw (h.0) (ap (◌∷◌ x) (read_strings render xs h.1))

status_of-value : (st : CaptureSessionStatus) → status_of (status_value st) ≡ st
unfolding status_of status_value txt text_beq
status_of-value created = refl
status_of-value running = refl
status_of-value paused = refl
status_of-value stopped = refl
status_of-value completed = refl
status_of-value error = refl

read_count : (n : ℕ) → int_or_0 (integer (pos n)) ≡ some (pos n)
unfolding int_or_0 truthy to_int
read_count n = elim (Bool-cases (nat_beq n 0)) [
  | inl zero ↦ rw zero (ap (λ m. some (pos m)) (sym ((nat_beq_iff n 0).0 zero)))
  | inr more ↦ rw more refl
]

from_reading : {o : Option ℕ} (now t : ℕ) → o ≡ some t → elim o [ none ↦ now | some u ↦ u ] ≡ t
from_reading now t h = rw h refl

module _ (render : Json → Text) (iso : ℕ → Text) (parse_iso : Text → Option ℕ)
    (expand : Text → Text) (read_iso : (t : ℕ) → parse_iso (iso t) ≡ some t) where
  read_root :
      (o : Option Text)
      → elim o [ none ↦ none | some p ↦ some (expand p) ] ≡ o
      → path_of render iso parse_iso expand (optional o) ≡ some o
  read_root none h = refl
  read_root (some p) h = ap (λ r. some r) h

  read_id :
      (id fresh : Text)
      → is_empty id ≡ false
      → elim (if not (is_empty id) then some id else none) [ none ↦ fresh | some s ↦ s ] ≡ id
  read_id id fresh h = rw h refl

  read_time : (now t : ℕ) → parse_datetime render iso parse_iso expand now (str (iso t)) ≡ t
  read_time now t = from_reading now t (read_iso t)

  -- A checkpoint of a persistable session, read back, is that session, at the path it is read
  -- from.
  pub from_dict-to_dict :
      (now : ℕ) (fresh_id : Text) (path : Option Text) (s : CaptureSession)
      → IsPersistable expand s
      → from_dict render iso parse_iso expand now fresh_id path
          (to_dict render iso parse_iso expand s)
        ≡ some (record s { state_path = elim path [ none ↦ none | some p ↦ some (expand p) ] })
  unfolding from_dict to_dict txt get_or get_field text_or_none texts_at text_beq
  from_dict-to_dict now fresh_id path s h = rw (read_root s.root h.root) (
      rw (read_count s.current_question) (
        rw (read_count s.frame_count) (
          rw (read_strings render s.screenshot_hashes h.hashes) (
            rw (read_strings render s.screenshot_paths h.paths) (
              rw (read_count s.consecutive_unchanged) (λ i. some (record s {
                session_id = read_id s.session_id fresh_id h.id i;
                state_path = elim path [ none ↦ none | some p ↦ some (expand p) ];
                device_serial = read_optional render s.device_serial h.device i;
                status = status_of-value s.status i;
                last_screenshot_hash = read_optional render s.last_screenshot_hash h.last_hash i;
                error = read_optional render s.error h.error i;
                metadata = safe_fields_free s.metadata h.metadata i;
                created_at = read_time now s.created_at i;
                updated_at = read_time now s.updated_at i;
              })))))))

-- `CaptureSession.create`: `child` is `str(path / name)`, `now` the clock and `fresh_id` the random
-- identifier.
unfoldable pub create :
    (Text → Text)
    → (Text → Text → Text)
    → ℕ
    → Text
    → Option Text
    → Option Text
    → Option Text
    → Option Text
    → Fields
    → CaptureSession
unfolding txt
create expand child now fresh_id session_id root state_path device_serial metadata =
    let root_path : Option Text = elim root [ none ↦ none | some p ↦ some (expand p) ] in
    record {
      session_id = elim session_id [
        | none ↦ fresh_id
        | some s ↦ if is_empty s then fresh_id else s
      ];
      state_path = elim state_path [
        | some p ↦ some (expand p)
        | none ↦ elim root_path [ none ↦ none | some p ↦ some (child p (txt "manifest.json")) ]
      ];
      root = root_path;
      device_serial = device_serial;
      status = created;
      current_question = 0;
      current_step = txt "start";
      frame_count = 0;
      screenshot_hashes = [];
      screenshot_paths = [];
      last_screenshot_hash = none;
      consecutive_unchanged = 0;
      error = none;
      metadata = metadata;
      created_at = now;
      updated_at = now;
    }
