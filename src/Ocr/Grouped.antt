-- ===== src/Ocr/Grouped.antt =====
-- The images that are grouped, and the groups.
use dingzhen_notebook.Common.{
  ℕ, ◌≡◌, refl, sym, ap, ◌∙◌, Bool, false, not, ◌||◌, Bool-cases, inl, inr, List, [], ◌∷◌, ◌++◌,
  map, Text, text_eq, add_key, add_keys, from_keys, from_keys-IsNodup, IsNodup, select, subst,
}
use dingzhen_notebook.Common.Sort.{sort}
use dingzhen_notebook.Ocr.{
  PageMarkers, ImportedImage, by_order, next_number, group_name, page_of, assigned_to, assign,
  auto_assign_captured_images,
}

add_keys-snoc :
    (acc xs : List Text) (x : Text) → add_keys acc (xs ++ x ∷ []) ≡ add_key (add_keys acc xs) x
unfolding add_keys
add_keys-snoc acc [] x = refl
add_keys-snoc acc (y ∷ xs) x = add_keys-snoc (add_key acc y) xs x

from_keys-snoc : (xs : List Text) (x : Text) → from_keys (xs ++ x ∷ []) ≡ add_key (from_keys xs) x
unfolding from_keys
from_keys-snoc xs x = add_keys-snoc [] xs x

map_append : {A B : Type 0} → (f : A → B) (xs ys : List A) → map f (xs ++ ys) ≡ map f xs ++ map f ys
map_append f [] ys = refl
map_append f (x ∷ xs) ys = ap (λ zs. f x ∷ zs) (map_append f xs ys)

append_assoc : {A : Type 0} → (xs ys zs : List A) → (xs ++ ys) ++ zs ≡ xs ++ (ys ++ zs)
append_assoc [] ys zs = refl
append_assoc (x ∷ xs) ys zs = ap (λ r. x ∷ r) (append_assoc xs ys zs)

append_nil : {A : Type 0} → (xs : List A) → xs ≡ xs ++ []
append_nil [] = refl
append_nil (x ∷ xs) = ap (λ r. x ∷ r) (append_nil xs)

abbrev ids : List ImportedImage → List Text
ids images = map (λ i. i.group_id) images

-- An image without its assignment.
abbrev pub unassigned : ImportedImage → ImportedImage
unassigned i = record i { group_id = []; page_kind = [] }

module _ (markers : PageMarkers) (recognize : Text → Text) where
  abbrev pub is_page : ImportedImage → Bool
  is_page image = not (page_of markers recognize image).skip

  ids-assign :
      (current : ℕ) (complete : Bool) (groups : List Text) (assigned images : List ImportedImage)
      → groups ≡ from_keys (ids assigned)
      → (assign markers recognize current complete groups assigned images).0
        ≡ from_keys (ids (assign markers recognize current complete groups assigned images).1)
  unfolding assign
  ids-assign current complete groups assigned [] h = h
  ids-assign current complete groups assigned (image ∷ images) h =
      let page = page_of markers recognize image in
      let n = next_number current complete page in
      elim (Bool-cases page.skip) [
        | inl e ↦ rw (assign, e) (ids-assign current complete groups assigned images h)
        | inr e ↦
            rw (assign, e)
              (ids-assign n (page.complete || page.paper_ended) (add_key groups (group_name n))
                (assigned ++ assigned_to markers recognize n image ∷ []) images
                (ap (λ g. add_key g (group_name n)) h
                  ∙ sym (from_keys-snoc (ids assigned) (group_name n))
                  ∙ ap from_keys (
                      sym (
                        map_append (λ i. i.group_id) assigned
                          (assigned_to markers recognize n image ∷ [])))))
      ]

  pages-assign :
      (current : ℕ) (complete : Bool) (groups : List Text) (assigned images : List ImportedImage)
      → map unassigned (assign markers recognize current complete groups assigned images).1
        ≡ map unassigned assigned ++ map unassigned (select is_page images)
  unfolding assign select
  pages-assign current complete groups assigned [] = append_nil (map unassigned assigned)
  pages-assign current complete groups assigned (image ∷ images) =
      let page = page_of markers recognize image in
      let n = next_number current complete page in
      elim (Bool-cases page.skip) [
        | inl e ↦ rw (assign, select, e) (pages-assign current complete groups assigned images)
        | inr e ↦
            rw (assign, select, e)
              (pages-assign n (page.complete || page.paper_ended) (add_key groups (group_name n))
                  (assigned ++ assigned_to markers recognize n image ∷ []) images
                ∙ ap (λ r. r ++ map unassigned (select is_page images))
                    (map_append unassigned assigned (assigned_to markers recognize n image ∷ []))
                ∙ append_assoc (map unassigned assigned) (unassigned image ∷ [])
                    (map unassigned (select is_page images)))
      ]

  -- All pages that are not skipped, in their order, with only the group and the kind changed; and
  -- their groups, each once, in the order of the first image.
  pub record IsGrouping (images : List ImportedImage) (groups : List Text)
      (assigned : List ImportedImage) : Type 0 where
    pub kept : map unassigned assigned ≡ map unassigned (select is_page (sort by_order images))
    pub listed : groups ≡ from_keys (map (λ i. i.group_id) assigned)
    pub distinct : IsNodup groups

  -- Grouping loses no page and makes up no group: whatever the texts are, every image that is not
  -- skipped is kept once, in the images' order, with only its group and kind changed, and the
  -- groups are those of the kept images, each once and in the order of their first images.
  pub auto_assign_captured_images-IsGrouping :
      (images : List ImportedImage)
      → IsGrouping images
          (auto_assign_captured_images markers recognize images).0
          (auto_assign_captured_images markers recognize images).1
  unfolding auto_assign_captured_images from_keys add_keys
  auto_assign_captured_images-IsGrouping images =
      let sorted = sort by_order images in
      let e = ids-assign 1 false [] [] sorted refl in
      record {
        kept = pages-assign 1 false [] [] sorted;
        listed = e;
        distinct =
            subst (λ g. IsNodup g) (sym e)
              (from_keys-IsNodup (ids (assign markers recognize 1 false [] [] sorted).1));
      }
