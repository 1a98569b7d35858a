-- ===== src/Stability/Update.antt =====
-- packages/stability/update.py: versions, the update manifest and the download. Parameters stand
-- for Python's libraries: `parse_url` is `urlparse` (scheme and host name), `sha256` the
-- hexadecimal digest, `render` the `str()` of a JSON value that is no string. A response is its
-- HTTP status and the chunks that `read` returns.
pub mod Laws
use dingzhen_notebook.Common.{
  ℕ, ◌+◌, Bool, true, false, not, ◌&&◌, ◌||◌, Option, none, some, List, [], ◌∷◌, ◌++◌, Text,
  text_eq, ◌==◌, txt, leb, ltb, nat_beq, if◌then◌else◌, is_empty, length, all, elem,
}
use dingzhen_notebook.Common.Int.{ℤ, ltb_ℤ}
use dingzhen_notebook.Common.Strings.{strip, lstrip_by, lower}
use dingzhen_notebook.Json.{Json, str, Fields, get_field, get_or, to_int, text_of}

-- The text before the first `c`.
unfoldable pub before : ℕ → Text → Text
before c [] = []
before c (d ∷ s) = if nat_beq d c then [] else d ∷ before c s

-- `s.split(c)`, with the part that is being read.
unfoldable pub split_from : ℕ → Text → Text → List Text
split_from c part [] = part ∷ []
split_from c part (d ∷ s) =
    let next = split_from c [] s in
    let longer = split_from c (part ++ d ∷ []) s in if nat_beq d c then part ∷ next else longer

-- `int(part)` of each part; `none` is the `ValueError`.
unfoldable pub numbers : List Text → Option (List ℤ)
unfolding to_int
numbers [] = some []
numbers (s ∷ ss) = elim (to_int (str s)) [
  | none ↦ none
  | some n ↦ elim (numbers ss) [ none ↦ none | some ns ↦ some (n ∷ ns) ]
]

unfoldable pub version_tuple : Text → Option (List ℤ)
unfolding numbers split_from before strip lstrip_by
version_tuple value =
    numbers (split_from b'.' [] (before b'-' (lstrip_by (λ c. nat_beq c b'v') (strip value))))

-- The order of tuples.
unfoldable pub tuple_lt : List ℤ → List ℤ → Bool
tuple_lt [] [] = false
tuple_lt [] (y ∷ ys) = true
tuple_lt (x ∷ xs) [] = false
tuple_lt (x ∷ xs) (y ∷ ys) = ltb_ℤ x y || (not (ltb_ℤ y x) && tuple_lt xs ys)

pub record UpdateManifest : Type 0 where
  pub version : Text
  pub installer_url : Text
  pub sha256 : Text
  pub release_notes : Text

-- `none` is the `ValueError` of a version that is no tuple of numbers.
unfoldable pub update_available : Text → UpdateManifest → Option Bool
unfolding version_tuple tuple_lt
update_available current manifest = elim (version_tuple manifest.version) [
  | none ↦ none
  | some new ↦ elim (version_tuple current) [ none ↦ none | some old ↦ some (tuple_lt old new) ]
]

unfoldable pub is_hex : ℕ → Bool
is_hex c = (leb b'0' c && leb c b'9') || (leb b'a' c && leb c b'f')

abbrev pub is_value {ℓ} : {A : Type ℓ} → Option A → Bool
is_value none = false
is_value (some a) = true

-- A host name that is there and not empty.
abbrev pub has_host : Option Text → Bool
has_host none = false
has_host (some host) = not (is_empty host)

abbrev pub is_loopback : Option Text → Bool
is_loopback none = false
is_loopback (some host) = elem host (txt "127.0.0.1" ∷ txt "localhost" ∷ txt "::1" ∷ [])

-- What a download ends in.
pub data Download : Type 0 where
  http_error : ℕ → Download
  too_large : Download
  wrong_digest : Download
  saved : Text → Download

module _ (render : Json → Text) (parse_url : Text → Text × Option Text) (sha256 : Text → Text) where
  unfoldable pub secure_url : Text → Bool
  unfolding elem txt
  secure_url url =
      let parsed = parse_url url in
      (parsed.0 == txt "https" && has_host parsed.1)
      || (parsed.0 == txt "http" && is_loopback parsed.1)

  -- The checks at the end of `from_dict`.
  unfoldable pub is_valid : UpdateManifest → Bool
  unfolding version_tuple secure_url all is_hex
  is_valid manifest =
      is_value (version_tuple manifest.version)
      && secure_url manifest.installer_url
      && nat_beq (length manifest.sha256) 64
      && all is_hex manifest.sha256

  -- `UpdateManifest.from_dict`; `none` is the `KeyError` or the `ValueError`.
  unfoldable pub from_dict : Fields → Option UpdateManifest
  unfolding get_field get_or lower is_valid txt
  from_dict d = elim (get_field (txt "version") d) [
    | none ↦ none
    | some version ↦ elim (get_field (txt "installer_url") d) [
      | none ↦ none
      | some url ↦ elim (get_field (txt "sha256") d) [
        | none ↦ none
        | some digest ↦
            let manifest : UpdateManifest = record {
              version = text_of render version;
              installer_url = text_of render url;
              sha256 = lower (text_of render digest);
              release_notes = text_of render (get_or (txt "release_notes") (str []) d);
            } in
            if is_valid manifest then some manifest else none
      ]
    ]
  ]

  -- The loop: what was written so far, and the chunks to come. An empty chunk ends the stream.
  unfoldable pub read_chunks : ℕ → Text → List Text → Option Text
  read_chunks max_bytes written [] = some written
  read_chunks max_bytes written (chunk ∷ chunks) =
      let rest = read_chunks max_bytes (written ++ chunk) chunks in
      if is_empty chunk
      then some written
      else if ltb max_bytes (length written + length chunk)
      then none
      else rest

  unfoldable pub download_update : UpdateManifest → ℕ → ℕ → List Text → Download
  unfolding read_chunks
  download_update manifest max_bytes status chunks =
      if leb 400 status then http_error status else elim (read_chunks max_bytes [] chunks) [
        | none ↦ too_large
        | some content ↦ if sha256 content == manifest.sha256 then saved content else wrong_digest
      ]
