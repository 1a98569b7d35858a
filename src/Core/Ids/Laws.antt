-- ===== src/Core/Ids/Laws.antt =====
-- A paper identifier that was accepted is safe, and is accepted again unchanged.
use dingzhen_notebook.Common.{
  ℕ, ◌≡◌, refl, sym, subst, ap, ◌∙◌, ◌≢◌, Bool, true, false, some, [], ◌∷◌, Text, All, is_empty,
  arith, Bool-cases, inl, inr, if◌then◌else◌, txt,
}
use dingzhen_notebook.Common.Strings.{
  is_space, strip, strip_by, strip_by_idem, contains, starts_with,
}
use dingzhen_notebook.Common.Strings.Laws.{All-strip_by, strip_by_none, contains-strip_by}
use dingzhen_notebook.Core.Ids.{
  is_safe, is_edge, replace_runs, is_forbidden, safe_paper_id, nonempty_text,
}

replace_runs-safe : (r : Bool) (s : Text) → All (λ c. is_safe c ≡ true) (replace_runs r s)
unfolding replace_runs
replace_runs-safe r [] = tt
replace_runs-safe r (c ∷ s) = elim (Bool-cases (is_safe c)) [
  | inl safe ↦ rw safe (safe, replace_runs-safe false s)
  | inr unsafe ↦ rw unsafe (skipped r (replace_runs true s) (replace_runs-safe true s))
]
  where
    skipped :
        (r : Bool) (rest : Text)
        → All (λ c. is_safe c ≡ true) rest
        → All (λ c. is_safe c ≡ true) (if r then rest else b'_' ∷ rest)
    skipped true rest h = h
    skipped false rest h = (refl, h)

-- A safe text has no runs to replace.
replace_runs_lem : (r : Bool) (s : Text) → All (λ c. is_safe c ≡ true) s → replace_runs r s ≡ s
unfolding replace_runs
replace_runs_lem r [] h = refl
replace_runs_lem r (c ∷ s) h = rw (h.0) (ap (◌∷◌ c) (replace_runs_lem false s h.1))

safe_not_space : (c : ℕ) → is_safe c ≡ true → is_space c ≡ false
unfolding is_safe is_space
safe_not_space c h = ground arith

no_space : (s : Text) → All (λ c. is_safe c ≡ true) s → All (λ c. is_space c ≡ false) s
no_space [] h = tt
no_space (c ∷ s) h = (safe_not_space c h.0, no_space s h.1)

-- The separators of a path do not occur in a safe text.
no_slash : (s : Text) → All (λ c. is_safe c ≡ true) s → contains (txt "/") s ≡ false
unfolding contains txt is_safe
no_slash [] h = refl
no_slash (c ∷ s) h = ground (arith, no_slash s h.1)

no_backslash : (s : Text) → All (λ c. is_safe c ≡ true) s → contains (txt "\\") s ≡ false
unfolding contains txt is_safe
no_backslash [] h = refl
no_backslash (c ∷ s) h = ground (arith, no_backslash s h.1)

-- After a safe character, a dot stands in the result only where one stood before.
dot_kept :
    (s : Text)
    → starts_with (b'.' ∷ []) (replace_runs false s) ≡ true
    → starts_with (b'.' ∷ []) s ≡ true
unfolding replace_runs starts_with
dot_kept [] h = h
dot_kept (c ∷ s) h = ground arith

no_dots :
    (r : Bool) (s : Text)
    → contains (txt "..") s ≡ false
    → contains (txt "..") (replace_runs r s) ≡ false
unfolding contains txt replace_runs
no_dots r [] h = refl
no_dots r (c ∷ s) h = elim (Bool-cases (is_safe c)) [
  | inl safe ↦ rw safe (ground (arith, no_dots false s, dot_kept s))
  | inr unsafe ↦ rw unsafe (ground (arith, no_dots true s))
]

-- A part of a path that can name neither another folder nor its parent.
pub record IsPathSafe (s : Text) : Type 0 where
  pub characters : All (λ c. is_safe c ≡ true) s
  pub no_parent : contains (txt "..") s ≡ false
  pub no_separator : contains (txt "/") s ≡ false
  pub no_other_separator : contains (txt "\\") s ≡ false
  pub nonempty : s ≢ []

parts_of_allowed : (raw : Text) → is_forbidden raw ≡ false → contains (txt "..") raw ≡ false
unfolding is_forbidden
parts_of_allowed raw h = ground arith

allowed_of_parts :
    (raw : Text)
    → is_empty raw ≡ false
    → contains (txt "..") raw ≡ false
    → contains (txt "/") raw ≡ false
    → contains (txt "\\") raw ≡ false
    → is_forbidden raw ≡ false
unfolding is_forbidden
allowed_of_parts raw a b c d = ground arith

nonempty_text-some : (t s : Text) → nonempty_text t ≡ some s → (t ≡ s) × (is_empty s ≡ false)
nonempty_text-some [] s h = cc
nonempty_text-some (c ∷ t) [] h = cc
nonempty_text-some (c ∷ t) (d ∷ s) h = (cc, refl)

-- What an accepted identifier was made from.
accepted :
    (p s : Text)
    → safe_paper_id p ≡ some s
    → (is_forbidden (strip p) ≡ false)
      × (strip_by is_edge (replace_runs false (strip p)) ≡ s)
      × (is_empty s ≡ false)
unfolding safe_paper_id
accepted p s h = elim (Bool-cases (is_forbidden (strip p))) [
  | inl bad ↦ cc (rw bad at h)
  | inr good ↦
      let (made, some_text) =
        nonempty_text-some (strip_by is_edge (replace_runs false (strip p))) s (rw good at h) in
      (good, made, some_text)
]

module _ (p s : Text) (h : safe_paper_id p ≡ some s) where
  safe_characters : All (λ c. is_safe c ≡ true) s
  safe_characters =
      let (good, made, some_text) = accepted p s h in
      subst (λ t. All (λ c. is_safe c ≡ true) t) made
        (All-strip_by is_edge (λ c. is_safe c ≡ true) (replace_runs false (strip p))
          (replace_runs-safe false (strip p)))

  no_parent_dots : contains (txt "..") s ≡ false
  no_parent_dots =
      let (good, made, some_text) = accepted p s h in
      sym (ap (λ t. contains (txt "..") t) made)
      ∙ contains-strip_by is_edge (txt "..") (replace_runs false (strip p))
          (no_dots false (strip p) (parts_of_allowed (strip p) good))

  edges_stripped : strip_by is_edge s ≡ s
  edges_stripped =
      let (good, made, some_text) = accepted p s h in
      ap (strip_by is_edge) (sym made) ∙ strip_by_idem is_edge (replace_runs false (strip p)) ∙ made

  -- An accepted identifier is a path-safe name: letters, digits, `.`, `_` and `-`, without `..`.
  pub safe_paper_id-IsPathSafe : IsPathSafe s
  safe_paper_id-IsPathSafe = record {
    characters = safe_characters;
    no_parent = no_parent_dots;
    no_separator = no_slash s safe_characters;
    no_other_separator = no_backslash s safe_characters;
    nonempty = λ e. cc (ap (λ (t : Text). is_empty t) e, (accepted p s h).2);
  }

  -- An accepted identifier is accepted again and comes back unchanged, so the callers may check
  -- it as often as they like.
  pub safe_paper_id_idem : safe_paper_id s ≡ some s
  unfolding safe_paper_id
  safe_paper_id_idem = rw (strip_by_none is_space s (no_space s safe_characters)) (
      rw
        (allowed_of_parts s (accepted p s h).2 no_parent_dots (no_slash s safe_characters)
          (no_backslash s safe_characters))
        (rw (replace_runs_lem false s safe_characters)
          (rw edges_stripped (still_there s (accepted p s h).2))))
    where
      still_there : (t : Text) → is_empty t ≡ false → nonempty_text t ≡ some t
      still_there [] e = cc
      still_there (c ∷ t) e = refl
