-- ===== src/Core/Ids.antt =====
-- packages/core/ids.py: paper identifiers that are safe as parts of a path.
pub mod Laws
use dingzhen_notebook.Common.{
  ℕ, Bool, true, false, not, ◌&&◌, ◌||◌, Option, none, some, List, [], ◌∷◌, Text, is_empty, leb,
  nat_beq, if◌then◌else◌, txt, ◌++◌,
}
use dingzhen_notebook.Common.Strings.{strip, strip_by, contains}

-- A character of `[A-Za-z0-9._-]`
unfoldable pub is_safe : ℕ → Bool
is_safe c =
    (leb b'A' c && leb c b'Z')
    || (leb b'a' c && leb c b'z')
    || (leb b'0' c && leb c b'9')
    || nat_beq c b'.'
    || nat_beq c b'_'
    || nat_beq c b'-'

-- A character of `strip("._-")`
unfoldable pub is_edge : ℕ → Bool
is_edge c = nat_beq c b'.' || nat_beq c b'_' || nat_beq c b'-'

-- `_SAFE.sub("_", text)`: each run of unsafe characters becomes one underscore. `in_run` says
-- that the character before was unsafe.
unfoldable pub replace_runs : Bool → Text → Text
unfolding is_safe
replace_runs in_run [] = []
replace_runs in_run (c ∷ s) =
    let rest = replace_runs (not (is_safe c)) s in
    if is_safe c then c ∷ rest else if in_run then rest else b'_' ∷ rest

-- What makes `safe_paper_id` refuse the stripped text at once.
unfoldable pub is_forbidden : Text → Bool
unfolding contains txt
is_forbidden raw =
    is_empty raw || contains (txt "..") raw || contains (txt "/") raw || contains (txt "\\") raw

abbrev pub nonempty_text : Text → Option Text
nonempty_text [] = none
nonempty_text (c ∷ s) = some (c ∷ s)

-- `none` is the `ValueError`.
unfoldable pub safe_paper_id : Text → Option Text
unfolding strip strip_by is_edge replace_runs is_forbidden
safe_paper_id paper_id =
    let raw = strip paper_id in
    if is_forbidden raw then none else nonempty_text (strip_by is_edge (replace_runs false raw))

-- `new_paper_id`, with the time stamp that `strftime` gives.
unfoldable pub new_paper_id : Text → Text → Option Text
unfolding safe_paper_id
new_paper_id prefix stamp = safe_paper_id (prefix ++ b'_' ∷ stamp)
