-- ===== src/Analysis/Tags/Laws.antt =====
-- Editing tags: what is read back, and what an edit leaves alone.
use dingzhen_notebook.Common.{
  ◌≡◌, refl, sym, ap, ◌∙◌, false, not, Option, some, List, [], ◌∷◌, ◌++◌, map, Text, text_eq, ◌==◌,
  txt, is_empty, select, from_keys, All, All-from_keys, from_keys_idem, from_keys-IsNodup, arith,
  Bool-cases, inl, inr, elem, elem-from_keys, elem-append, elem-select, All-select, IsNodup, ◌&&◌,
  ◌||◌,
}
use dingzhen_notebook.Common.Strings.{strip, tidy, tidy_idem, strip-tidy, is_empty-tidy}
use dingzhen_notebook.Json.{
  Json, str, arr, nil, Fields, from_list, to_list, to_list-from_list, get_or, get_or-set_field_self,
  set_field, text_of,
}
use dingzhen_notebook.Core.Question.{
  Question, assign_ai_analysis, force_incomplete_to_review, missing_reasons,
}
use dingzhen_notebook.Core.Question.Laws.{
  IsValidated, flagged, force_incomplete_complete, force_incomplete_missing,
}
use dingzhen_notebook.Analysis.Tags.{
  tidied, normalized, fields_of, texts, tags_in, as_tags, get_tag_values, get_error_tags,
  set_error_tags, add_error_tag, remove_error_tag,
}

-- A tag as it is stored: tidy, and not blank.
abbrev pub IsTag : Text → Type 0
IsTag s = (tidy s ≡ s) × (is_empty (strip s) ≡ false)

tidied-IsTag : (tags : List Text) → All IsTag (tidied tags)
unfolding tidied
tidied-IsTag [] = tt
tidied-IsTag (t ∷ ts) = elim (Bool-cases (is_empty (strip t))) [
  | inl blank ↦ rw blank (tidied-IsTag ts)
  | inr kept ↦ rw kept (
    (tidy_idem t, ap (λ (s : Text). is_empty s) (strip-tidy t) ∙ is_empty-tidy t ∙ kept),
    tidied-IsTag ts,
  )
]

tidied_tags : (tags : List Text) → All IsTag tags → tidied tags ≡ tags
unfolding tidied
tidied_tags [] h = refl
tidied_tags (t ∷ ts) h = rw (h.0.1) (rw (h.0.0) (ap (◌∷◌ t) (tidied_tags ts h.1)))

pub normalized-IsTag : (tags : List Text) → All IsTag (normalized tags)
unfolding normalized
normalized-IsTag tags = All-from_keys IsTag (tidied tags) (tidied-IsTag tags)

normalized_tags : (tags : List Text) → All IsTag tags → normalized tags ≡ from_keys tags
unfolding normalized
normalized_tags tags h = ap (λ l. from_keys l) (tidied_tags tags h)

-- Normalizing twice is normalizing once.
pub normalized_idem : (tags : List Text) → normalized (normalized tags) ≡ normalized tags
unfolding normalized
normalized_idem tags =
    normalized_tags (normalized tags) (normalized-IsTag tags) ∙ from_keys_idem (tidied tags)

fields_of-force_incomplete : (q : Question) → fields_of (force_incomplete_to_review q) ≡ fields_of q
unfolding force_incomplete_to_review
fields_of-force_incomplete q = elim (Bool-cases (is_empty (missing_reasons q))) [
  | inl complete ↦ rw complete
  | inr missing ↦ rw missing
]

tidied-append : (xs ys : List Text) → tidied (xs ++ ys) ≡ tidied xs ++ tidied ys
unfolding tidied
tidied-append [] ys = refl
tidied-append (x ∷ xs) ys = elim (Bool-cases (is_empty (strip x))) [
  | inl blank ↦ rw blank (tidied-append xs ys)
  | inr kept ↦ rw kept (ap (◌∷◌ (tidy x)) (tidied-append xs ys))
]

elem-tidied_one :
    (a tag : Text) → elem a (tidied (tag ∷ [])) ≡ (not (is_empty (strip tag)) && a == tidy tag)
unfolding tidied elem
elem-tidied_one a tag = ground arith

validated_edit :
    (q : Question) (d : Option Fields)
    → IsValidated q
    → force_incomplete_to_review (record q { ai_analysis = d }) ≡ record q { ai_analysis = d }
unfolding missing_reasons
validated_edit q d v = elim (Bool-cases (is_empty (missing_reasons q))) [
  | inl complete ↦ force_incomplete_complete (record q { ai_analysis = d }) complete
  | inr missing ↦
      let same : flagged q ≡ q =
        sym (force_incomplete_missing q missing) ∙ v.flagged_if_incomplete in
      force_incomplete_missing (record q { ai_analysis = d }) missing ∙ (λ i. record q {
        ai_analysis = d;
        verification_status = (same i).verification_status;
        review_reasons = (same i).review_reasons;
      })
]

module _ (render : Json → Text) where
  map-text_of : (tags : List Text) → map (text_of render) (map (λ s. str s) tags) ≡ tags
  map-text_of [] = refl
  map-text_of (t ∷ ts) = ap (◌∷◌ t) (map-text_of ts)

  tags_of_texts :
      (tags : List Text) → map (text_of render) (to_list (from_list (map (λ s. str s) tags))) ≡ tags
  tags_of_texts tags = rw (to_list-from_list (map (λ s. str s) tags)) (map-text_of tags)

  tags_in-set_field :
      (tags : List Text) (d : Fields)
      → tags_in render (set_field (txt "error_tags") (texts tags) d) ≡ tidied tags
  unfolding tags_in
  tags_in-set_field tags d =
      ap (λ v. tidied (as_tags render v))
        (get_or-set_field_self (txt "error_tags") _ (texts tags) d)
      ∙ ap (λ l. tidied l) (tags_of_texts tags)

  -- What is set is what is read: the tags of `set_error_tags`, normalized.
  pub get-set_error_tags :
      (q : Question) (tags : List Text)
      → get_error_tags render (set_error_tags q tags).0 ≡ normalized tags
  unfolding get_error_tags set_error_tags assign_ai_analysis get_tag_values
  get-set_error_tags q tags =
      ap (λ d. from_keys (tags_in render d))
        (fields_of-force_incomplete (record q {
          ai_analysis = some (set_field (txt "error_tags") (texts (normalized tags)) (fields_of q));
        }))
      ∙ ap (λ l. from_keys l) (tags_in-set_field (normalized tags) (fields_of q))
      ∙ (unfold normalized in normalized_idem tags)

  tags_in-tags : (d : Fields) → All IsTag (tags_in render d)
  unfolding tags_in
  tags_in-tags d = tidied-IsTag (
      as_tags render (
        get_or (txt "error_tags") (get_or (txt "error_tag") (get_or (txt "tags") (arr nil) d) d) d))

  get_error_tags-tags : (q : Question) → All IsTag (get_error_tags render q)
  unfolding get_error_tags get_tag_values
  get_error_tags-tags q = All-from_keys IsTag (get_tag_values render q) (tags_in-tags (fields_of q))

  get_error_tags-IsNodup : (q : Question) → IsNodup (get_error_tags render q)
  unfolding get_error_tags
  get_error_tags-IsNodup q = from_keys-IsNodup (get_tag_values render q)

  elem-normalized : (a : Text) (tags : List Text) → elem a (normalized tags) ≡ elem a (tidied tags)
  unfolding normalized
  elem-normalized a tags = elem-from_keys a (tidied tags)

  -- Removing a tag removes it, in any spelling that tidies to it, and no other.
  pub elem-remove_error_tag :
      (q : Question) (tag a : Text)
      → elem a (get_error_tags render (remove_error_tag render q tag).0)
        ≡ (elem a (get_error_tags render q) && not (a == tidy tag))
  unfolding remove_error_tag
  elem-remove_error_tag q tag a =
      let kept = select (λ item. not (item == tidy tag)) (get_error_tags render q) in
      ap (λ l. elem a l) (get-set_error_tags q kept)
      ∙ elem-normalized a kept
      ∙ ap (λ l. elem a l)
          (tidied_tags kept (
            All-select IsTag (λ item. not (item == tidy tag)) (get_error_tags render q)
              (get_error_tags-tags q)))
      ∙ elem-select a (λ item. not (item == tidy tag)) (get_error_tags render q)

  -- Adding a tag adds it, tidied, unless it is blank, and keeps the others.
  pub elem-add_error_tag :
      (q : Question) (tag a : Text)
      → elem a (get_error_tags render (add_error_tag render q tag).0)
        ≡ (elem a (get_error_tags render q) || (not (is_empty (strip tag)) && a == tidy tag))
  unfolding add_error_tag
  elem-add_error_tag q tag a =
      let old = get_error_tags render q in
      ap (λ l. elem a l) (get-set_error_tags q (old ++ tag ∷ []))
      ∙ elem-normalized a (old ++ tag ∷ [])
      ∙ ap (λ l. elem a l) (tidied-append old (tag ∷ []))
      ∙ elem-append a (tidied old) (tidied (tag ∷ []))
      ∙ ap (λ l. elem a l || elem a (tidied (tag ∷ []))) (tidied_tags old (get_error_tags-tags q))
      ∙ ap (λ b. elem a old || b) (elem-tidied_one a tag)

-- On a validated question an edit of the tags changes `ai_analysis` and nothing else: not the
-- official answer or explanation, not the review status or its reasons.
pub set_error_tags-only :
    (q : Question) (tags : List Text)
    → IsValidated q
    → (set_error_tags q tags).0 ≡ record q {
      ai_analysis = some (set_field (txt "error_tags") (texts (normalized tags)) (fields_of q));
    }
unfolding set_error_tags assign_ai_analysis
set_error_tags-only q tags v = validated_edit q _ v
