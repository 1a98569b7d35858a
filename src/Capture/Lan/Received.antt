-- ===== src/Capture/Lan/Received.antt =====
-- The lists of received frames, whatever requests come in: in order, each file once, and written.
use dingzhen_notebook.Common.{
  ℕ, ◌≤◌, ◌≡◌, refl, sym, ap, ◌∙◌, true, false, Bool-cases, inl, inr, Option, none, some, add_key,
  List, [], ◌∷◌, ◌++◌, Text, text_eq, pair_eq, ◌==◌, ==_iff, elem, count, count-append, All, arith,
  is_some, subst,
}
use dingzhen_notebook.Common.Dict.{Dict, lookup, insert, lookup-insert, lookup-insert_self, has_key}
use dingzhen_notebook.Common.Sort.{text_order, IsSorted, sort-IsSorted, count-sort, All-sort}
use dingzhen_notebook.Json.{Json}
use dingzhen_notebook.Capture.Lan.{
  Upload, frame, complete, Request, Receiver, admit, store, store_in, put_file, Moment, Write,
  written, failed, handle_post, serve, with_frame, names_of, frame_name,
}
use dingzhen_notebook.Capture.Lan.Safety.{Admission-cases, Write-cases}

-- Sorted, and no name twice.
pub record IsListing (names : List Text) : Type 0 where
  pub ordered : IsSorted text_order names
  pub once : (a : Text) → count (λ b. a == b) names ≤ 1

infixr 20 ◌∙≤◌
◌∙≤◌ : {m n k : ℕ} → m ≡ n → n ≤ k → m ≤ k
e ∙≤ h = omega (arith, e, h)

count_absent : (a : Text) (names : List Text) → elem a names ≡ false → count (λ b. a == b) names ≡ 0
unfolding elem count
count_absent a [] h = refl
count_absent a (b ∷ names) h = ground (arith, count_absent a names)

once_more :
    (a name : Text) (names : List Text)
    → elem name names ≡ false
    → count (λ b. a == b) names ≤ 1
    → count (λ b. a == b) (names ++ name ∷ []) ≤ 1
unfolding count
once_more a name names new once = elim (Bool-cases (a == name)) [
  | inl same ↦
      let absent = count_absent name names new in
      let e : count (λ b. a == b) names ≡ 0 =
        ap (λ n. count (λ b. n == b) names) ((==_iff a name).0 same) ∙ absent in
      let more = count-append (λ b. a == b) names (name ∷ []) in
      more ∙≤ (rw same (omega (arith, e)))
  | inr other ↦
      let more = count-append (λ b. a == b) names (name ∷ []) in
      more ∙≤ (rw other (omega (arith, once)))
]

with_frame-IsListing :
    (name : Text) (names : List Text) → IsListing names → IsListing (with_frame name names)
unfolding with_frame
with_frame-IsListing name names h = elim (Bool-cases (elem name names)) [
  | inl old ↦ rw old h
  | inr new ↦ rw new (record {
    ordered = sort-IsSorted text_order (names ++ name ∷ []);
    once = λ a.
        count-sort text_order (λ b. a == b) (names ++ name ∷ [])
        ∙≤ once_more a name names new (h.once a);
  })
]

-- Each file is written.
abbrev IsWritten : (Text → Text → Text) → Dict Text Text → Text → Text → Type 0
IsWritten path_text files task name = has_key (path_text task name) files ≡ true

has_key-insert :
    (k j body : Text) (files : Dict Text Text)
    → has_key j files ≡ true
    → has_key j (insert k body files) ≡ true
has_key-insert k j body files h = elim (Bool-cases (j == k)) [
  | inl same ↦ ap is_some (lookup-insert k j body files) ∙ rw same refl
  | inr other ↦ ap is_some (lookup-insert k j body files) ∙ rw other h
]

has_key-insert_self :
    (k body : Text) (files : Dict Text Text) → has_key k (insert k body files) ≡ true
has_key-insert_self k body files = ap is_some (lookup-insert_self k body files)

-- A write, failing or not, removes no file.
has_key-put_file :
    (path content j : Text) (result : Write) (files : Dict Text Text)
    → has_key j files ≡ true
    → has_key j (put_file path content result files) ≡ true
unfolding put_file
has_key-put_file path content j written files h = has_key-insert path j content files h
has_key-put_file path content j (failed none) files h = h
has_key-put_file path content j (failed (some part)) files h = has_key-insert path j part files h

still_present :
    (path_text : Text → Text → Text) (path content : Text) (result : Write) (files : Dict Text Text)
    (task : Text) (names : List Text)
    → All (IsWritten path_text files task) names
    → All (IsWritten path_text (put_file path content result files) task) names
still_present path_text path content result files task [] h = tt
still_present path_text path content result files task (name ∷ names) h = (
  has_key-put_file path content (path_text task name) result files h.0,
  still_present path_text path content result files task names h.1,
)

All-snoc :
    (P : Text → Type 0) (names : List Text) (name : Text)
    → All P names
    → P name
    → All P (names ++ name ∷ [])
All-snoc P [] name h new = (new, tt)
All-snoc P (n ∷ names) name h new = (h.0, All-snoc P names name h.1 new)

All-with_frame :
    (P : Text → Type 0) (name : Text) (names : List Text)
    → All P names
    → P name
    → All P (with_frame name names)
unfolding with_frame
All-with_frame P name names h new = elim (Bool-cases (elem name names)) [
  | inl old ↦ rw old h
  | inr fresh ↦ rw fresh (All-sort text_order P (names ++ name ∷ []) (All-snoc P names name h new))
]

-- The frames of each task are listed in order, each once, and each listed file is written.
pub record IsReceived (path_text : Text → Text → Text) (r : Receiver) : Type 0 where
  pub listed : (task : Text) → IsListing (names_of (lookup task r.received))
  pub written_files :
      (task : Text) → All (IsWritten path_text r.files task) (names_of (lookup task r.received))

module _ (hmac : Text → Text → Text) (sha256 : Text → Text) (dump : Json → Text)
    (path_text : Text → Text → Text) where
  -- A write, with the listings as they were.
  same_listings :
      (path content : Text) (result : Write) (completed : List Text) (r : Receiver)
      → IsReceived path_text r
      → IsReceived path_text
          (record r { completed = completed; files = put_file path content result r.files })
  same_listings path content result completed r h = record {
    listed = h.listed;
    written_files = λ t.
        still_present path_text path content result r.files t (names_of (lookup t r.received))
          (h.written_files t);
  }

  -- A frame that is written and listed.
  one_more_frame :
      (task name body : Text) (r : Receiver)
      → IsReceived path_text r
      → IsReceived path_text (record r {
        received = insert task (with_frame name (names_of (lookup task r.received))) r.received;
        files = put_file (path_text task name) body written r.files;
      })
  unfolding put_file
  one_more_frame task name body r h =
      let names = names_of (lookup task r.received) in
      let path = path_text task name in
      let files = insert path body r.files in
      record {
        listed = λ t.
            subst (λ (o : Option (List Text)). IsListing (names_of o))
              (sym (lookup-insert task t (with_frame name names) r.received))
              (elim (Bool-cases (t == task)) [
                | inl same ↦ rw same (with_frame-IsListing name names (h.listed task))
                | inr other ↦ rw other (h.listed t)
              ]);
        written_files = λ t.
            subst (λ (o : Option (List Text)). All (IsWritten path_text files t) (names_of o))
              (sym (lookup-insert task t (with_frame name names) r.received))
              (elim (Bool-cases (t == task)) [
                | inl same ↦
                    let e = (==_iff t task).0 same in
                    rw same (
                      subst
                        (λ (u : Text). All (IsWritten path_text files u) (with_frame name names))
                        (sym e)
                        (All-with_frame (IsWritten path_text files task) name names
                          (still_present path_text path body written r.files task names
                            (h.written_files task))
                          (has_key-insert_self path body r.files)))
                | inr other ↦ rw other (
                    still_present path_text path body written r.files t
                      (names_of (lookup t r.received)) (h.written_files t))
              ]);
      }

  store_in-IsReceived :
      (m : Moment) (task : Text) (item : Upload) (checksum body : Text) (r : Receiver)
      → IsReceived path_text r
      → IsReceived path_text (store_in hmac sha256 dump path_text m task item checksum body r).1
  unfolding store_in
  store_in-IsReceived m task complete checksum body r h =
      elim (Bool-cases (checksum == sha256 [])) [
        | inl nothing ↦ rw (store_in, nothing) (same_listings _ _ _ _ r h)
        | inr something ↦ rw (store_in, something) h
      ]
  store_in-IsReceived m task (frame digits) checksum body r h =
      let name = frame_name digits in
      let path = path_text task name in
      elim (Write-cases (m.writes path body)) [
        | inl e ↦ rw (store_in, e) (one_more_frame task name body r h)
        | inr (part, e) ↦ rw (store_in, e) (same_listings path body (failed part) r.completed r h)
      ]

  with_folders :
      (r : Receiver) (folders : List Text)
      → IsReceived path_text r
      → IsReceived path_text (record r { folders = folders })
  with_folders r folders h = record { listed = h.listed; written_files = h.written_files }

  store-IsReceived :
      (m : Moment) (task : Text) (item : Upload) (checksum body : Text) (r : Receiver)
      → IsReceived path_text r
      → IsReceived path_text (store hmac sha256 dump path_text m task item checksum body r).1
  unfolding store
  store-IsReceived m task item checksum body r h = elim (Bool-cases (m.makes task)) [
    | inl made ↦
        rw (store, made)
          (store_in-IsReceived m task item checksum body
            (record r { folders = add_key r.folders task })
            (with_folders r (add_key r.folders task) h))
    | inr unmade ↦ rw (store, unmade) h
  ]

  handle_post-IsReceived :
      (m : Moment) (q : Request) (r : Receiver)
      → IsReceived path_text r
      → IsReceived path_text (handle_post hmac sha256 dump path_text m q r).1
  unfolding handle_post
  handle_post-IsReceived m q r h =
      elim (Admission-cases hmac sha256 dump path_text
        (admit hmac sha256 dump path_text m.now r.secret q)) [
          | inl (reason, e) ↦ rw (handle_post, e) h
          | inr (task, item, checksum, body, e) ↦
              rw (handle_post, e) (store-IsReceived m task item checksum body r h)
        ]

  -- Whatever requests come in, authentic or not, and whatever the file system does: the frames of each task stay listed in order,
  -- each once however often it is sent, and each listed file is written.
  pub serve-IsReceived :
      (qs : List (Moment × Request)) (r : Receiver)
      → IsReceived path_text r
      → IsReceived path_text (serve hmac sha256 dump path_text qs r)
  unfolding serve
  serve-IsReceived [] r h = h
  serve-IsReceived ((m, q) ∷ qs) r h =
      serve-IsReceived qs (handle_post hmac sha256 dump path_text m q r).1
        (handle_post-IsReceived m q r h)
