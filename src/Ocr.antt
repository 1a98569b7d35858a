-- ===== src/Ocr.antt =====
-- Recognised pages (packages/ocr/page_classify.py) and their grouping into questions
-- (apps/desktop/pipeline.py). The markers are those of the configuration; `find_number` is what
-- the configured pattern finds by `re.search`, and `recognize` the OCR engine's text of an image.
pub mod Grouped
use dingzhen_notebook.Common.{
  ℕ, ◌+◌, ◌≡◌, Bool, true, false, not, ◌&&◌, ◌||◌, Option, none, some, List, [], ◌∷◌, ◌++◌, Text,
  text_eq, ◌==◌, txt, leb, if◌then◌else◌, any, add_key, arith,
}
use dingzhen_notebook.Common.Decimal.{padded}
use dingzhen_notebook.Common.Sort.{Order, sort}
use dingzhen_notebook.Common.Strings.{contains}

pub record PageMarkers : Type 0 where
  pub find_number : Text → Option ℕ
  pub user_answer : List Text
  pub official_answer : List Text
  pub explanation : List Text
  pub end_markers : List Text
  pub paper_end : List Text
  pub skip : List Text
  pub next_question : List Text

pub record PageClass : Type 0 where
  pub question_number : Option ℕ
  pub page_kind : Text
  pub complete : Bool
  pub paper_ended : Bool
  pub skip : Bool
  pub has_next_question : Bool

-- `any(marker in raw for marker in markers)`
unfoldable pub has_marker : List Text → Text → Bool
unfolding any contains
has_marker markers raw = any (λ marker. contains marker raw) markers

unfoldable pub classify_ocr_text : PageMarkers → Text → PageClass
unfolding has_marker txt
classify_ocr_text m raw =
    let skip = has_marker m.skip raw in
    let is_analysis = has_marker (m.user_answer ++ (m.official_answer ++ m.explanation)) raw in
    let complete =
      has_marker m.user_answer raw
      && (has_marker m.official_answer raw
          && (has_marker m.explanation raw && has_marker m.end_markers raw)) in
    let has_next = has_marker m.next_question raw in
    let ended = has_marker m.paper_end raw || (complete && not has_next) in
    record {
      question_number = m.find_number raw;
      page_kind = if is_analysis then txt "analysis" else txt "question";
      complete = complete;
      paper_ended = ended && not skip;
      skip = skip;
      has_next_question = has_next;
    }

pub record ImportedImage : Type 0 where
  pub path : Text
  pub source_path : Text
  pub checksum_sha256 : Text
  pub width : ℕ
  pub height : ℕ
  pub captured_at : ℕ
  pub order : ℕ
  pub group_id : Text
  pub page_kind : Text

pub by_order : Order ImportedImage
by_order = record {
  le = λ a b. leb a.order b.order;
  le_total = λ a b h. ground arith;
  le_trans = λ a b c h k. ground arith;
}

-- The number of the question that a page belongs to, after the number before.
unfoldable pub next_number : ℕ → Bool → PageClass → ℕ
unfolding txt
next_number current previous_complete page = elim page.question_number [
  | some n ↦ n
  | none ↦ if previous_complete && (page.page_kind == txt "question") then current + 1 else current
]

unfoldable pub group_name : ℕ → Text
unfolding padded
group_name n = b'q' ∷ padded 3 n

module _ (markers : PageMarkers) (recognize : Text → Text) where
  abbrev pub page_of : ImportedImage → PageClass
  page_of image = classify_ocr_text markers (recognize image.path)

  abbrev pub assigned_to : ℕ → ImportedImage → ImportedImage
  assigned_to n image = record image {
    group_id = group_name n;
    page_kind = (page_of image).page_kind;
  }

  -- The loop over the sorted images, with the groups and images so far.
  unfoldable pub assign :
      ℕ
      → Bool
      → List Text
      → List ImportedImage
      → List ImportedImage
      → List Text × List ImportedImage
  unfolding classify_ocr_text next_number group_name add_key
  assign current previous_complete groups assigned [] = (groups, assigned)
  assign current previous_complete groups assigned (image ∷ images) =
      let page = page_of image in
      let n = next_number current previous_complete page in
      elim page.skip [
        | true ↦ assign current previous_complete groups assigned images
        | false ↦
            assign n (page.complete || page.paper_ended) (add_key groups (group_name n))
              (assigned ++ assigned_to n image ∷ []) images
      ]

  -- `auto_assign_captured_images`: the groups, and the images that the workflow is left with.
  unfoldable pub auto_assign_captured_images : List ImportedImage → List Text × List ImportedImage
  unfolding assign sort
  auto_assign_captured_images images = assign 1 false [] [] (sort by_order images)
