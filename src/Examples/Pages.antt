-- ===== src/Examples/Pages.antt =====
-- Pages grouped into questions.
use dingzhen_notebook.Common.{ℕ, Text, txt, none, List, [], ◌∷◌}
use dingzhen_notebook.Ocr.{PageMarkers, ImportedImage, auto_assign_captured_images}
use dingzhen_notebook.Ocr.Grouped.{IsGrouping, auto_assign_captured_images-IsGrouping}

abbrev markers : PageMarkers
markers = record {
  find_number = λ raw. none;
  user_answer = txt "你的答案" ∷ [];
  official_answer = txt "正确答案" ∷ [];
  explanation = txt "答案解析" ∷ [];
  end_markers = txt "知识点" ∷ [];
  paper_end = txt "查看报告" ∷ [];
  skip = txt "密码登录" ∷ [];
  next_question = txt "下一题" ∷ [];
}

-- The text of an image is its path.
abbrev recognize : Text → Text
recognize path = path

abbrev image : ℕ → Text → ImportedImage
image order path = record {
  path = path;
  source_path = path;
  checksum_sha256 = [];
  width = 1080;
  height = 2400;
  captured_at = 0;
  order = order;
  group_id = txt "unassigned";
  page_kind = txt "unassigned";
}

abbrev images : List ImportedImage
images = image 2 (txt "题干二") ∷ image 0 (txt "密码登录") ∷ image 1 (txt "你的答案 正确答案 答案解析 知识点") ∷ []

auto_assign_captured_images-IsGrouping_example :
    IsGrouping markers recognize images
      (auto_assign_captured_images markers recognize images).0
      (auto_assign_captured_images markers recognize images).1
auto_assign_captured_images-IsGrouping_example =
    auto_assign_captured_images-IsGrouping markers recognize images
