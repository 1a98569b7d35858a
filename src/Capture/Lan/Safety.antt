-- ===== src/Capture/Lan/Safety.antt =====
-- Only authentic uploads are accepted, and nothing else is stored.
use dingzhen_notebook.Common.{
  ℕ, zero, suc, ◌≤◌, ◌≡◌, refl, sym, ap, ◌∙◌, Bool, true, false, Bool-cases, Option, Option-cases,
  add_key, inl, inr, ◌⊎◌, subst, some, [], ◌∷◌, Text, text_eq, ◌==◌, ==_iff, txt, if_some, ltb,
  length, take, arith,
}
use dingzhen_notebook.Common.Int.{ℤ, pos, negsuc}
use dingzhen_notebook.Common.Dict.{Dict}
use dingzhen_notebook.Common.Strings.{strip, lower}
use dingzhen_notebook.Json.{Json, str, to_int}
use dingzhen_notebook.Capture.Lan.{
  Upload, frame, complete, Request, Refusal, Reply, rejected, accepted, Receiver, header,
  content_length, bad_length, body_of, skew, max_body, parse_task, sign_lan_request, Admission,
  refused, admitted, admit, verify_lan_request, is_ascii, signed_path, store, store_in, reply_to,
  frame_name, authenticate, Moment, Write, written, failed, dropped, send_error, handle_post,
}

abbrev pub is_accepted : Reply → Bool
is_accepted (rejected reason) = false
is_accepted (accepted checksum) = true

length-take : (n : ℕ) (s : Text) → length (take n s) ≤ n
length-take zero s = omega arith
length-take (suc n) [] = omega arith
length-take (suc n) (c ∷ s) = omega (arith, length-take n s)

body_of-bound : (n : ℤ) (s : Text) → bad_length n ≡ false → length (body_of n s) ≤ max_body
body_of-bound (pos n) s h = ground (arith, length-take n s)
body_of-bound (negsuc n) s h = cc

pub Write-cases :
    (result : Write) → (result ≡ written) ⊎ ((part : Option Text) × (result ≡ failed part))
Write-cases written = inl refl
Write-cases (failed part) = inr (part, refl)

module _ (hmac : Text → Text → Text) (sha256 : Text → Text) (dump : Json → Text)
    (path_text : Text → Text → Text) where
  -- A request that the holder of the secret signed within five minutes, over the task, the item
  -- and the digest of a body of bounded length.
  pub record IsAuthentic (now : ℕ) (secret : Text) (q : Request) (task : Text) (item : Upload)
      (body : Text) : Type 0 where
    pub addressed : parse_task q.path ≡ some (task, item)
    pub timestamp : ℤ
    pub dated : to_int (str (header q.timestamp)) ≡ some timestamp
    pub recent : skew now timestamp ≤ 300
    pub bounded : length body ≤ max_body
    pub signed :
        sign_lan_request hmac sha256 dump path_text secret
          (txt "POST")
          (signed_path hmac sha256 dump path_text task item)
          timestamp
          (sha256 body)
        ≡ lower (strip (header q.signature))

  verified_signature :
      (secret signature method path checksum : Text) (timestamp : ℤ)
      → verify_lan_request hmac sha256 dump path_text secret signature method path timestamp
          checksum
        ≡ some true
      → sign_lan_request hmac sha256 dump path_text secret method path timestamp checksum
        ≡ lower (strip signature)
  unfolding verify_lan_request
  verified_signature secret signature method path checksum timestamp h =
      let (plain, same) =
        if_some (is_ascii (lower (strip signature)))
          (sign_lan_request hmac sha256 dump path_text secret method path timestamp checksum
            == lower (strip signature))
          true h in
      (==_iff (sign_lan_request hmac sha256 dump path_text secret method path timestamp checksum)
          (lower (strip signature))).0
        same

  -- What `authenticate` admits: the arguments, recent, signed and with the right digest.
  authenticate_admitted :
      (now : ℕ) (secret task : Text) (item : Upload) (body checksum signature : Text)
      (timestamp : ℤ) (task' : Text) (item' : Upload) (checksum' body' : Text)
      → authenticate hmac sha256 dump path_text now secret task item body checksum signature
          timestamp
        ≡ admitted task' item' checksum' body'
      → (task ≡ task')
        × (item ≡ item')
        × (checksum ≡ checksum')
        × (body ≡ body')
        × (skew now timestamp ≤ 300)
        × (verify_lan_request hmac sha256 dump path_text secret signature
              (txt "POST")
              (signed_path hmac sha256 dump path_text task item)
              timestamp
              checksum
            ≡ some true)
        × (sha256 body ≡ checksum)
  unfolding authenticate
  authenticate_admitted now secret task item body checksum signature timestamp task' item' checksum'
        body' h =
      elim (Bool-cases (ltb 300 (skew now timestamp))) [
        | inl late ↦ cc (rw late at h)
        | inr recent ↦
            elim (Option-cases (
              verify_lan_request hmac sha256 dump path_text secret signature (txt "POST")
                (signed_path hmac sha256 dump path_text task item) timestamp checksum)) [
                  | inl odd ↦ cc (rw (recent, odd) at h)
                  | inr (valid, e) ↦ elim (Bool-cases valid) [
                    | inr bad ↦ cc (rw (recent, e, bad) at h)
                    | inl good ↦ elim (Bool-cases (sha256 body == checksum)) [
                      | inr wrong ↦ cc (rw (recent, e, good, wrong) at h)
                      | inl right ↦
                          let same = rw (recent, e, good, right) at h in
                          (
                            cc same,
                            cc same,
                            cc same,
                            cc same,
                            ground arith,
                            e ∙ ap (λ b. some b) good,
                            (==_iff (sha256 body) checksum).0 right,
                          )
                    ]
                  ]
                ]
      ]

  admit-IsAuthentic :
      (now : ℕ) (secret : Text) (q : Request) (task : Text) (item : Upload) (checksum body : Text)
      → admit hmac sha256 dump path_text now secret q ≡ admitted task item checksum body
      → IsAuthentic now secret q task item body
  unfolding admit
  admit-IsAuthentic now secret q task item checksum body h =
      elim (Option-cases (parse_task q.path)) [
        | inl unknown ↦ cc (rw unknown at h)
        | inr ((task', item'), address) ↦ elim (Option-cases (content_length q.content_length)) [
          | inl odd ↦ cc (rw (address, odd) at h)
          | inr (n, size) ↦ elim (Bool-cases (bad_length n)) [
            | inl large ↦ cc (rw (address, size, large) at h)
            | inr small ↦ elim (Option-cases (to_int (str (header q.timestamp)))) [
              | inl undated ↦ cc (rw (address, size, small, undated) at h)
              | inr (timestamp, date) ↦
                  let (e_task, e_item, e_sum, e_body, recent, valid, digest) =
                    authenticate_admitted now secret task' item' (body_of n q.stream)
                      (lower (strip (header q.checksum))) (header q.signature) timestamp task item
                      checksum body (rw (address, size, small, date) at h) in
                  let s_task = sym e_task in
                  let s_item = sym e_item in
                  record {
                    addressed =
                        address ∙ ap (λ (p : Text × Upload). some p) (λ i. (e_task i, e_item i));
                    timestamp = timestamp;
                    dated = date;
                    recent = recent;
                    bounded =
                        subst (λ (b : Text). length b ≤ max_body) e_body
                          (body_of-bound n q.stream small);
                    signed =
                        (λ i.
                          sign_lan_request hmac sha256 dump path_text secret (txt "POST")
                            (signed_path hmac sha256 dump path_text (s_task i) (s_item i)) timestamp
                            ((ap sha256 (sym e_body) ∙ digest) i))
                        ∙ verified_signature secret (header q.signature) (txt "POST")
                            (signed_path hmac sha256 dump path_text task' item')
                            (lower (strip (header q.checksum))) timestamp valid;
                  }
            ]
          ]
        ]
      ]

  pub Admission-cases :
      (a : Admission)
      → ((reason : Refusal) × (a ≡ refused reason))
        ⊎ ((task : Text) × (item : Upload) × (checksum : Text) × (body : Text) × (a
              ≡ admitted task item checksum body))
  Admission-cases (refused reason) = inl (reason, refl)
  Admission-cases (admitted task item checksum body) = inr (task, item, checksum, body, refl)

  -- What an admission and its answer leave as it was: everything, if the request is not admitted;
  -- the frames, the finished tasks and the files, if an error is sent; the frames, if there is no
  -- answer.
  pub IsUnchanged : Admission → Reply → Receiver → Receiver → Type 0
  IsUnchanged (refused reason) reply r r' = r' ≡ r
  IsUnchanged (admitted task item checksum body) (accepted sum) r r' = Unit
  IsUnchanged (admitted task item checksum body) (rejected (send_error code reason)) r r' =
      (r'.received ≡ r.received) × (r'.completed ≡ r.completed) × (r'.files ≡ r.files)
  IsUnchanged (admitted task item checksum body) (rejected dropped) r r' = r'.received ≡ r.received

  store-refused :
      (m : Moment) (task : Text) (item : Upload) (checksum body : Text) (r : Receiver)
      → IsUnchanged
          (admitted task item checksum body)
          (store hmac sha256 dump path_text m task item checksum body r).0
          r
          (store hmac sha256 dump path_text m task item checksum body r).1
  unfolding store store_in IsUnchanged reply_to
  store-refused m task item checksum body r = elim (Bool-cases (m.makes task)) [
    | inr unmade ↦ rw (store, unmade) refl
    | inl made ↦ rw (store, made) (inside item)
  ]
    where
      put :
          (result : Write) (files : Dict Text Text)
          → IsUnchanged
              (admitted task complete checksum body)
              (reply_to result checksum)
              r
              (record r {
                completed = add_key r.completed task;
                files = files;
                folders = add_key r.folders task;
              })
      put written files = tt
      put (failed part) files = refl

      inside :
          (i : Upload)
          → IsUnchanged
              (admitted task i checksum body)
              (store_in hmac sha256 dump path_text m task i checksum body
                (record r { folders = add_key r.folders task })).0
              r
              (store_in hmac sha256 dump path_text m task i checksum body
                (record r { folders = add_key r.folders task })).1
      inside (frame digits) =
          elim (Write-cases (m.writes (path_text task (frame_name digits)) body)) [
            | inl e ↦ rw (store_in, e) tt
            | inr (part, e) ↦ rw (store_in, e) refl
          ]
      inside complete = elim (Bool-cases (checksum == sha256 [])) [
        | inl nothing ↦ rw (store_in, nothing) (put _ _)
        | inr something ↦ rw (store_in, something) (refl, refl, refl)
      ]

  -- A request that is not admitted changes nothing. One that is answered by an error leaves the
  -- listed frames, the finished tasks and the files as they were. One that gets no answer, since the
  -- file system failed, leaves the listed frames as they were.
  pub handle_post-refused :
      (m : Moment) (q : Request) (r : Receiver)
      → IsUnchanged
          (admit hmac sha256 dump path_text m.now r.secret q)
          (handle_post hmac sha256 dump path_text m q r).0
          r
          (handle_post hmac sha256 dump path_text m q r).1
  unfolding handle_post IsUnchanged
  handle_post-refused m q r =
      elim (Admission-cases (admit hmac sha256 dump path_text m.now r.secret q)) [
        | inl (reason, e) ↦ rw (handle_post, e) refl
        | inr (task, item, checksum, body, e) ↦
            rw (handle_post, e) (store-refused m task item checksum body r)
      ]

  -- What is accepted was authentic: addressed to a task, recent, within the bound on a body, and
  -- signed by the holder of the secret over the task, the item and the digest of the body; and what
  -- changes is what storing that body changes.
  pub handle_post-IsAuthentic :
      (m : Moment) (q : Request) (r : Receiver)
      → is_accepted (handle_post hmac sha256 dump path_text m q r).0 ≡ true
      → (task : Text) × (item : Upload) × (checksum : Text) × (body : Text) × IsAuthentic m.now
          r.secret q task item body
        × ((handle_post hmac sha256 dump path_text m q r).1
            ≡ (store hmac sha256 dump path_text m task item checksum body r).1)
  unfolding handle_post
  handle_post-IsAuthentic m q r h =
      elim (Admission-cases (admit hmac sha256 dump path_text m.now r.secret q)) [
        | inl (reason, e) ↦ cc (rw e at h)
        | inr (task, item, checksum, body, e) ↦ (
          task,
          item,
          checksum,
          body,
          admit-IsAuthentic m.now r.secret q task item checksum body e,
          rw e refl,
        )
      ]
