-- ===== src/MistakePackage.antt =====
-- The mistake packages of packages/mistake_package/codec.py, as JSON documents: validation here;
-- answers, import and export in the child modules. `render` is Python's `str()` of a value that
-- is no string.
pub mod Answers
pub mod Import
pub mod Imported
pub mod Export
pub mod Exported
use dingzhen_notebook.Common.{
  ℕ, suc, ◌+◌, Bool, true, false, not, ◌&&◌, ◌||◌, Option, none, some, List, [], ◌∷◌, ◌++◌, map,
  Text, text_eq, ◌==◌, txt, nat_beq, if◌then◌else◌, is_empty, all, elem, add_key,
}
use dingzhen_notebook.Common.Int.{ℤ, pos, negsuc}
use dingzhen_notebook.Common.Decimal.{decimal}
use dingzhen_notebook.Common.Strings.{strip, contains}
use dingzhen_notebook.Json.{
  Json, null, boolean, integer, real, str, arr, obj, Items, nil, cons, Fields, end, field, to_list,
  from_list, get_field, get_or, truthy, to_int, text_of,
}
use dingzhen_notebook.Capture.Lan.{after_prefix}

abbrev pub package_format : Text
package_format = txt "jinzhi-mistake-package"

-- The messages of `validate_package`; most name the mistake.
pub data PackageError : Type 0 where
  bad_format bad_version no_folders no_mistakes folder_not_object folder_without_id : PackageError
  folder_repeated : Text → PackageError
  mistake_not_object : ℕ → PackageError
  bad_kind : Text → PackageError
  unknown_folder : Text → Text → PackageError
  block_not_object : Text → Text → PackageError
  media_not_lists : Text → Text → PackageError
  bad_media : Text → Text → PackageError
  empty_question : Text → PackageError
  legacy_interaction : Text → PackageError
  interaction_not_object : Text → PackageError
  bad_interaction : Text → Text → PackageError

-- `d.get(key) or {}`, `d.get(key) or []`: what is there, unless it is falsy.
unfoldable pub get_truthy : Text → Json → Fields → Json
unfolding get_or truthy
get_truthy key default d = let v = get_or key null d in if truthy v then v else default

unfoldable pub keys_of : Fields → List Json
keys_of end = []
keys_of (field k v d) = str k ∷ keys_of d

-- What `for item in value` runs through; `none` is the `TypeError`.
unfoldable pub iterate : Json → Option (List Json)
unfolding to_list keys_of
iterate (arr xs) = some (to_list xs)
iterate (str s) = some (map (λ c. str (c ∷ [])) s)
iterate (obj d) = some (keys_of d)
iterate _ = none

abbrev pub is_text : Json → Text → Bool
is_text (str s) t = s == t
is_text _ t = false

-- `not isinstance(value, list) or not value`
abbrev pub not_listed : Json → Bool
not_listed (arr (cons x xs)) = false
not_listed _ = true

-- `_MEDIA_RE.match(path) and ".." not in path`
unfoldable pub is_media : Text → Bool
unfolding after_prefix txt all contains
is_media path = elim (after_prefix (txt "media/") path) [
  | none ↦ false
  | some name ↦
      not (is_empty name)
      && all (λ c. not (nat_beq c b'/' || nat_beq c 0x5c)) name
      && not (contains (txt "..") path)
]

abbrev pub complain : Bool → PackageError → List PackageError → List PackageError
complain bad e rest = if bad then e ∷ rest else rest

abbrev pub empty_arr : Json
empty_arr = arr nil

abbrev pub is_interaction_type : Text → Bool
is_interaction_type t =
    elem t (txt "single" ∷ txt "multiple" ∷ txt "judge" ∷ txt "blank" ∷ txt "subjective" ∷ [])

abbrev pub is_null : Json → Bool
is_null null = true
is_null _ = false

module _ (render : Json → Text) where
  -- `str(d.get(key) or default)`
  unfoldable pub text_at : Text → Text → Fields → Text
  unfolding get_or truthy
  text_at key default d =
      let v = get_or key null d in if truthy v then text_of render v else default

  -- The folders, with the ids so far.
  unfoldable pub check_folders : List Text → List Json → List PackageError × List Text
  unfolding text_at elem add_key txt
  check_folders ids [] = ([], ids)
  check_folders ids (obj d ∷ folders) =
      let fid = text_at (txt "id") [] d in
      let (errors, ids') = check_folders (add_key ids fid) folders in
      (
        complain (is_empty fid) folder_without_id
            (complain (elem fid ids) (folder_repeated fid) errors),
        ids',
      )
  check_folders ids (_ ∷ folders) =
      let (errors, ids') = check_folders ids folders in (folder_not_object ∷ errors, ids')

  unfoldable pub check_paths : Text → List Json → List PackageError
  unfolding is_media
  check_paths mid [] = []
  check_paths mid (path ∷ paths) =
      complain (not (is_media (text_of render path))) (bad_media mid (text_of render path))
        (check_paths mid paths)

  -- The lists of a block, if they are lists.
  unfoldable pub check_lists : Text → Text → Bool → Bool → Json → Json → List PackageError
  unfolding check_paths to_list
  check_lists mid name required blank (arr images) (arr audio) =
      let paths = to_list images ++ to_list audio in
      check_paths mid paths
      ++ complain (required && blank && is_empty paths) (empty_question mid) []
  check_lists mid name required blank _ _ = media_not_lists mid name ∷ []

  unfoldable pub check_block : Text → Text → Json → List PackageError
  unfolding check_lists get_truthy text_at strip txt
  check_block mid name (obj d) =
      check_lists mid name (name == txt "question") (is_empty (strip (text_at (txt "text") [] d)))
        (get_truthy (txt "images") empty_arr d) (get_truthy (txt "audio") empty_arr d)
  check_block mid name _ = block_not_object mid name ∷ []

  unfoldable pub check_interaction : Text → Json → List PackageError
  unfolding text_at elem txt
  check_interaction mid (obj d) =
      let itype = text_at (txt "type") [] d in
      complain (not (is_interaction_type itype)) (bad_interaction mid itype) []
  check_interaction mid _ = interaction_not_object mid ∷ []

  abbrev pub check_field : Text → Text → Fields → List PackageError
  check_field mid name d = check_block mid name (get_truthy name (obj end) d)

  unfoldable pub check_mistake : List Text → ℕ → Json → List PackageError
  unfolding check_block check_interaction get_truthy text_at get_or decimal elem txt
  check_mistake ids index (obj d) =
      let mid = text_at (txt "id") (txt "第" ++ decimal index ++ txt "题") d in
      let kind = text_at (txt "kind") (txt "legacy") d in
      let folder_id = text_at (txt "folder_id") [] d in
      complain (not (elem kind (txt "legacy" ∷ txt "interactive" ∷ []))) (bad_kind mid) (
        complain (not (is_empty ids) && not (elem folder_id ids)) (unknown_folder mid folder_id) (
          check_field mid (txt "question") d
          ++ (check_field mid (txt "standard_answer") d
              ++ (check_field mid (txt "user_solution") d
                  ++ complain
                      (kind == txt "legacy" && not (is_null (get_or (txt "interaction") null d)))
                      (legacy_interaction mid)
                      (if kind == txt "interactive"
                        then check_interaction mid (get_truthy (txt "interaction") (obj end) d)
                        else [])))))
  check_mistake ids index _ = mistake_not_object index ∷ []

  unfoldable pub check_mistakes : List Text → ℕ → List Json → List PackageError
  unfolding check_mistake
  check_mistakes ids index [] = []
  check_mistakes ids index (mistake ∷ mistakes) =
      check_mistake ids index mistake ++ check_mistakes ids (suc index) mistakes

  -- `int(document.get("schema_version") or 0) != SCHEMA_VERSION`
  unfoldable pub wrong_version : Fields → Option Bool
  unfolding get_truthy to_int txt
  wrong_version document =
      elim (to_int (get_truthy (txt "schema_version") (integer (pos 0)) document)) [
        | none ↦ none
        | some (pos n) ↦ some (not (nat_beq n 1))
        | some (negsuc n) ↦ some true
      ]

  -- `validate_package`; `none` is an exception.
  unfoldable pub validate_package : Fields → Option (List PackageError)
  unfolding wrong_version iterate check_folders check_mistakes get_truthy get_or txt
  validate_package document = elim (wrong_version document) [
    | none ↦ none
    | some version ↦ elim (iterate (get_truthy (txt "folders") empty_arr document)) [
      | none ↦ none
      | some folders ↦ elim (iterate (get_truthy (txt "mistakes") empty_arr document)) [
        | none ↦ none
        | some mistakes ↦
            let (folder_errors, ids) = check_folders [] folders in
            some (
              complain (not (is_text (get_or (txt "format") null document) package_format))
                bad_format
                (complain version bad_version (
                  complain (not_listed (get_or (txt "folders") null document)) no_folders (
                    complain (not_listed (get_or (txt "mistakes") null document)) no_mistakes
                      (folder_errors ++ check_mistakes ids 1 mistakes)))))
      ]
    ]
  ]
