-- ===== src/Capture/Lan/Collected.antt =====
-- The received frames of all tasks as a set of pairs: what the listings implement.
use dingzhen_notebook.Common.{
  ◌≡◌, refl, sym, ap, ◌∙◌, Bool, true, false, ◌||◌, ◌&&◌, Bool-cases, inl, inr, List, [], ◌∷◌, ◌++◌,
  Text, text_eq, pair_eq, HasEquality, ◌==◌, ==_iff, elem, elem-append, add_key, elem-add_key,
  if◌then◌else◌, arith,
}
use dingzhen_notebook.Common.Dict.{lookup, insert, lookup-insert}
use dingzhen_notebook.Common.Sort.{Order, place, sort, text_order}
use dingzhen_notebook.Json.{Json}
use dingzhen_notebook.Capture.Lan.{
  Upload, frame, complete, Request, Receiver, Admission, admitted, admit, store, store_in, Moment,
  Write, written, failed, handle_post, serve, with_frame, names_of, frame_name,
}
use dingzhen_notebook.Capture.Lan.Safety.{Admission-cases, Write-cases}

module _ {A : Type 0} ⦃e : HasEquality A⦄ (o : Order A) where
  elem-place : (a x : A) (ys : List A) → elem a (place o x ys) ≡ (a == x || elem a ys)
  unfolding place elem
  elem-place a x [] = refl
  elem-place a x (y ∷ ys) = ground (arith, elem-place a x ys)

  elem-sort : (a : A) (xs : List A) → elem a (sort o xs) ≡ elem a xs
  unfolding sort elem
  elem-sort a [] = refl
  elem-sort a (x ∷ xs) = ground (arith, elem-place a x (sort o xs), elem-sort a xs)

elem-with_frame :
    (a name : Text) (names : List Text)
    → elem a (with_frame name names) ≡ (elem a names || a == name)
unfolding with_frame add_key
elem-with_frame a name names = elim (Bool-cases (elem name names)) [
  | inl old ↦ rw (with_frame, old) (added_old old ∙ elem-add_key a name names)
  | inr new ↦
      rw (with_frame, new)
        (elem-sort text_order a (names ++ name ∷ []) ∙ added_new new ∙ elem-add_key a name names)
]
  where
    added_old : elem name names ≡ true → elem a names ≡ elem a (add_key names name)
    added_old old = rw (add_key, old) refl

    added_new : elem name names ≡ false → elem a (names ++ name ∷ []) ≡ elem a (add_key names name)
    added_new new = rw (add_key, new) refl

abbrev pub is_written : Write → Bool
is_written written = true
is_written (failed part) = false

-- What a request adds to the set: its frame, if it is admitted and its folder and file are written.
unfoldable pub uploaded : (Text → Text → Text) → Moment → Admission → List (Text × Text)
unfolding frame_name
uploaded path_text m (admitted task (frame digits) checksum body) =
    if m.makes task && is_written (m.writes (path_text task (frame_name digits)) body)
    then (task, frame_name digits) ∷ []
    else []
uploaded path_text m _ = []

-- A frame stands in the listing of its task.
abbrev pub is_received : Text → Text → Receiver → Bool
is_received task name r = elem name (names_of (lookup task r.received))

or_false : (b : Bool) → b ≡ (b || false)
or_false b = ground arith

is_received-insert :
    (t name task new : Text) (r : Receiver)
    → elem name (
        names_of
          (lookup t (insert task (with_frame new (names_of (lookup task r.received))) r.received)))
      ≡ (is_received t name r || (t == task && name == new))
is_received-insert t name task new r = elim (Bool-cases (t == task)) [
  | inl e ↦
      ap (λ o. elem name (names_of o))
        (lookup-insert task t (with_frame new (names_of (lookup task r.received))) r.received)
      ∙ rw e (
          elem-with_frame name new (names_of (lookup task r.received)) ∙ here ((==_iff t task).0 e))
  | inr e ↦
      ap (λ o. elem name (names_of o))
        (lookup-insert task t (with_frame new (names_of (lookup task r.received))) r.received)
      ∙ rw e (or_false (is_received t name r))
]
  where
    here :
        t ≡ task
        → (elem name (names_of (lookup task r.received)) || name == new)
          ≡ (is_received t name r || name == new)
    here e = ap (λ u. elem name (names_of (lookup u r.received)) || name == new) (sym e)

module _ (hmac : Text → Text → Text) (sha256 : Text → Text) (dump : Json → Text)
    (path_text : Text → Text → Text) where
  is_received-store_in :
      (m : Moment) (t name task : Text) (item : Upload) (checksum body : Text) (r : Receiver)
      → m.makes task ≡ true
      → is_received t name (store_in hmac sha256 dump path_text m task item checksum body r).1 ≡ (
          is_received t name r
          || elem (t, name) (uploaded path_text m (admitted task item checksum body)))
  unfolding store_in uploaded elem
  is_received-store_in m t name task complete checksum body r made =
      elim (Bool-cases (checksum == sha256 [])) [
        | inl e ↦ rw (store_in, e) (or_false (is_received t name r))
        | inr e ↦ rw (store_in, e) (or_false (is_received t name r))
      ]
  is_received-store_in m t name task (frame digits) checksum body r made =
      elim (Write-cases (m.writes (path_text task (frame_name digits)) body)) [
        | inl e ↦
            rw (store_in, uploaded, made, e)
              (is_received-insert t name task (frame_name digits) r
                ∙ ap (λ b. is_received t name r || b)
                    (or_false (t == task && name == frame_name digits)))
        | inr (part, e) ↦ rw (store_in, uploaded, made, e) (or_false (is_received t name r))
      ]

  unmade_adds_nothing :
      (m : Moment) (t name task : Text) (item : Upload) (checksum body : Text)
      → m.makes task ≡ false
      → elem (t, name) (uploaded path_text m (admitted task item checksum body)) ≡ false
  unfolding uploaded elem
  unmade_adds_nothing m t name task complete checksum body unmade = refl
  unmade_adds_nothing m t name task (frame digits) checksum body unmade = rw (uploaded, unmade) refl

  is_received-store :
      (m : Moment) (t name task : Text) (item : Upload) (checksum body : Text) (r : Receiver)
      → is_received t name (store hmac sha256 dump path_text m task item checksum body r).1 ≡ (
          is_received t name r
          || elem (t, name) (uploaded path_text m (admitted task item checksum body)))
  unfolding store
  is_received-store m t name task item checksum body r = elim (Bool-cases (m.makes task)) [
    | inl made ↦
        rw (store, made)
          (is_received-store_in m t name task item checksum body
            (record r { folders = add_key r.folders task }) made)
    | inr unmade ↦
        let nothing = unmade_adds_nothing m t name task item checksum body unmade in
        rw (store, unmade)
          (or_false (is_received t name r) ∙ ap (λ b. is_received t name r || b) (sym nothing))
  ]

  is_received-handle_post :
      (t name : Text) (m : Moment) (q : Request) (r : Receiver)
      → is_received t name (handle_post hmac sha256 dump path_text m q r).1 ≡ (
          is_received t name r
          || elem
              (t, name)
              (uploaded path_text m (admit hmac sha256 dump path_text m.now r.secret q)))
  unfolding handle_post uploaded elem
  is_received-handle_post t name m q r =
      elim (Admission-cases hmac sha256 dump path_text
        (admit hmac sha256 dump path_text m.now r.secret q)) [
          | inl (reason, e) ↦ rw (handle_post, e) (or_false (is_received t name r))
          | inr (task, item, checksum, body, e) ↦
              rw (handle_post, e) (is_received-store m t name task item checksum body r)
        ]

  secret-store_in :
      (m : Moment) (task : Text) (item : Upload) (checksum body : Text) (r : Receiver)
      → (store_in hmac sha256 dump path_text m task item checksum body r).1.secret ≡ r.secret
  unfolding store_in
  secret-store_in m task (frame digits) checksum body r =
      elim (Write-cases (m.writes (path_text task (frame_name digits)) body)) [
        | inl e ↦ rw (store_in, e) refl
        | inr (part, e) ↦ rw (store_in, e) refl
      ]
  secret-store_in m task complete checksum body r = elim (Bool-cases (checksum == sha256 [])) [
    | inl e ↦ rw (store_in, e) refl
    | inr e ↦ rw (store_in, e) refl
  ]

  secret-handle_post :
      (m : Moment) (q : Request) (r : Receiver)
      → (handle_post hmac sha256 dump path_text m q r).1.secret ≡ r.secret
  unfolding handle_post store
  secret-handle_post m q r =
      elim (Admission-cases hmac sha256 dump path_text
        (admit hmac sha256 dump path_text m.now r.secret q)) [
          | inl (reason, e) ↦ rw (handle_post, e) refl
          | inr (task, item, checksum, body, e) ↦ elim (Bool-cases (m.makes task)) [
            | inl made ↦
                rw (handle_post, e, made)
                  (secret-store_in m task item checksum body
                    (record r { folders = add_key r.folders task }))
            | inr unmade ↦ rw (handle_post, e, unmade) refl
          ]
        ]

  -- The abstract receiver: a set of pairs of a task and a file's name, to which each admitted
  -- request adds its frame, if it can be written.
  unfoldable pub collected : Text → List (Moment × Request) → List (Text × Text)
  unfolding uploaded admit
  collected secret [] = []
  collected secret ((m, q) ∷ qs) =
      uploaded path_text m (admit hmac sha256 dump path_text m.now secret q) ++ collected secret qs

  or_assoc : (a b c : Bool) → ((a || b) || c) ≡ (a || (b || c))
  or_assoc a b c = ground arith

  -- After any requests, a file stands in the listing of a task exactly if it stood there before or
  -- one of the admitted requests uploaded it, with a folder and a write that
  -- did not fail: the sorted listings in a dictionary implement a set
  -- of uploads.
  pub is_received-serve :
      (t name : Text) (qs : List (Moment × Request)) (r : Receiver)
      → is_received t name (serve hmac sha256 dump path_text qs r)
        ≡ (is_received t name r || elem (t, name) (collected r.secret qs))
  unfolding serve collected elem
  is_received-serve t name [] r = or_false (is_received t name r)
  is_received-serve t name ((m, q) ∷ qs) r =
      let r' = (handle_post hmac sha256 dump path_text m q r).1 in
      let new = uploaded path_text m (admit hmac sha256 dump path_text m.now r.secret q) in
      is_received-serve t name qs r'
      ∙ ap (λ k. is_received t name r' || elem (t, name) (collected k qs))
          (secret-handle_post m q r)
      ∙ ap (λ b. b || elem (t, name) (collected r.secret qs)) (is_received-handle_post t name m q r)
      ∙ or_assoc (is_received t name r) (elem (t, name) new)
          (elem (t, name) (collected r.secret qs))
      ∙ ap (λ b. is_received t name r || b)
          (sym (elem-append (t, name) new (collected r.secret qs)))
