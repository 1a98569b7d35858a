-- ===== src/Stability/Update/Laws.antt =====
-- What may be installed.
use dingzhen_notebook.Common.{
  ℕ, ◌+◌, ◌≤◌, ◌≡◌, sym, ap, ◌∙◌, false, Bool-cases, inl, inr, Option, some, Option-cases, List, [],
  ◌∷◌, ◌++◌, Text, text_eq, ◌==◌, ==_iff, ltb, leb, is_empty, length, length-append, if◌then◌else◌,
  arith, subst,
}
use dingzhen_notebook.Json.{Json}
use dingzhen_notebook.Stability.Update.{
  UpdateManifest, wrong_digest, saved, read_chunks, download_update,
}

same_some : {a b : Text} → some a ≡ some b → a ≡ b
same_some e = cc

module _ (render : Json → Text) (parse_url : Text → Text × Option Text) (sha256 : Text → Text) where
  read_chunks-bound :
      (max_bytes : ℕ) (written : Text) (chunks : List Text) (content : Text)
      → length written ≤ max_bytes
      → read_chunks render parse_url sha256 max_bytes written chunks ≡ some content
      → length content ≤ max_bytes
  unfolding read_chunks
  read_chunks-bound max_bytes written [] content fits h =
      subst (λ (t : Text). length t ≤ max_bytes) (same_some h) fits
  read_chunks-bound max_bytes written (chunk ∷ chunks) content fits h =
      elim (Bool-cases (is_empty chunk)) [
        | inl over ↦ subst (λ (t : Text). length t ≤ max_bytes) (same_some (rw over at h)) fits
        | inr more ↦ elim (Bool-cases (ltb max_bytes (length written + length chunk))) [
          | inl large ↦ cc (rw (more, large) at h)
          | inr small ↦
              read_chunks-bound max_bytes (written ++ chunk) chunks content
                (within written chunk small) (rw (more, small) at h)
        ]
      ]
    where
      within :
          (a b : Text) → ltb max_bytes (length a + length b) ≡ false → length (a ++ b) ≤ max_bytes
      within a b e = ground (arith, length-append a b)

  saved-inv :
      (a b : Text) (digest : Text)
      → (if sha256 a == digest then saved a else wrong_digest) ≡ saved b
      → (a ≡ b) × (sha256 a ≡ digest)
  saved-inv a b digest h = elim (Bool-cases (sha256 a == digest)) [
    | inl matches ↦ (saved-same (rw matches at h), (==_iff (sha256 a) digest).0 matches)
    | inr differs ↦ cc (rw differs at h)
  ]
    where
      saved-same : saved a ≡ saved b → a ≡ b
      saved-same e = cc

  -- A download that is saved has the digest of the manifest and is within the limit, whatever the
  -- server sent.
  pub download_update-saved :
      (manifest : UpdateManifest) (max_bytes status : ℕ) (chunks : List Text) (content : Text)
      → download_update render parse_url sha256 manifest max_bytes status chunks ≡ saved content
      → (sha256 content ≡ manifest.sha256) × (length content ≤ max_bytes)
  unfolding download_update
  download_update-saved manifest max_bytes status chunks content h =
      elim (Bool-cases (leb 400 status)) [
        | inl bad ↦ cc (rw bad at h)
        | inr good ↦ elim (Option-cases (read_chunks render parse_url sha256 max_bytes [] chunks)) [
          | inl large ↦ cc (rw (good, large) at h)
          | inr (made, e) ↦
              let (same, digest) = saved-inv made content manifest.sha256 (rw (good, e) at h) in
              (
                ap sha256 (sym same) ∙ digest,
                subst (λ (t : Text). length t ≤ max_bytes) same
                    (read_chunks-bound max_bytes [] chunks made (omega arith) e),
              )
        ]
      ]
