-- ===== src/Examples/Responses.antt =====
-- A model's response that offers an official answer.
use dingzhen_notebook.Common.{txt, text_beq, text_eq, none, true, false, ◌≡◌, refl}
use dingzhen_notebook.Json.{Json, str, obj, end, field}
use dingzhen_notebook.Ai.Protect.{normalise_content, open_envelope, read_content}
use dingzhen_notebook.Ai.Protect.Laws.{
  unofficial, unofficial_fields, offered, normalise_content-unofficial,
}

abbrev harmless : Json
harmless = obj (field (txt "summary") (str (txt "ok")) end)

abbrev response : Json
response =
    obj (field (txt "summary") (str (txt "ok")) (field (txt "Official_Answer") (str (txt "C")) end))

kept : unofficial harmless ≡ true
unfolding unofficial txt text_beq
kept = refl

normalise_content-unofficial_example :
    unofficial_fields (normalise_content (λ j. txt "None") (λ s. none) response).data_fields ≡ true
normalise_content-unofficial_example =
    normalise_content-unofficial (λ j. txt "None") (λ s. none) response

offers : unofficial_fields (offered (λ j. txt "None") (λ s. none) response) ≡ false
unfolding unofficial open_envelope read_content txt text_beq
offers = refl
