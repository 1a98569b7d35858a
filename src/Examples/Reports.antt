-- ===== src/Examples/Reports.antt =====
-- Filters, reports and downloads on concrete inputs.
use dingzhen_notebook.Common.{
  ◌≤◌, ◌≡◌, refl, true, false, Option, none, some, List, [], ◌∷◌, ◌++◌, Text, txt, text_beq,
  text_eq, count, length, all,
}
use dingzhen_notebook.Common.Sort.{sort}
use dingzhen_notebook.Json.{Json}
use dingzhen_notebook.Core.Question.{Question, verified}
use dingzhen_notebook.Analysis.Metric.{is_wrong}
use dingzhen_notebook.Analysis.Filters.{filter_risk_questions, is_verified}
use dingzhen_notebook.Analysis.Filters.Laws.{filter_risk_questions-mistakes}
use dingzhen_notebook.Analysis.Report.{analyze_questions}
use dingzhen_notebook.Analysis.Report.Laws.{IsTallied, analyze_questions-IsTallied}
use dingzhen_notebook.Stability.Update.{UpdateManifest, download_update, read_chunks, saved}
use dingzhen_notebook.Stability.Update.Laws.{download_update-saved}
use dingzhen_notebook.Examples.Samples.{sample, unofficial_sample}

abbrev render : Json → Text
render j = txt "None"

abbrev pair : List Question
pair = sample ∷ unofficial_sample ∷ []

abbrev verified_sample : Question
verified_sample = record sample { verification_status = verified }

filter_risk_questions-mistakes_example :
    count (λ q. is_wrong q.is_correct) (filter_risk_questions 50 false pair)
    ≡ count (λ q. is_wrong q.is_correct) pair
filter_risk_questions-mistakes_example = filter_risk_questions-mistakes pair

analyze_questions-IsTallied_example : IsTallied (analyze_questions render none [] pair) pair
analyze_questions-IsTallied_example = analyze_questions-IsTallied render none [] pair

all_verified : (analyze_questions render none [] (verified_sample ∷ [])).verified ≡ true
unfolding analyze_questions sort all is_verified
all_verified = refl

abbrev parse_url : Text → Text × Option Text
parse_url url = (txt "https", some (txt "example.org"))

abbrev digest : Text → Text
digest content = txt "d" ++ content

abbrev manifest : UpdateManifest
manifest = record {
  version = txt "1.2.0";
  installer_url = txt "https://example.org/setup";
  sha256 = txt "dab";
  release_notes = [];
}

installed :
    download_update render parse_url digest manifest 10 200 (txt "a" ∷ txt "b" ∷ [])
    ≡ saved (txt "ab")
unfolding download_update read_chunks txt text_beq
installed = refl

download_update-saved_example : (digest (txt "ab") ≡ txt "dab") × (length (txt "ab") ≤ 10)
download_update-saved_example =
    download_update-saved render parse_url digest manifest 10 200 (txt "a" ∷ txt "b" ∷ [])
      (txt "ab") installed
