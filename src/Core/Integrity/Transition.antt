-- ===== src/Core/Integrity/Transition.antt =====
-- The transition writes the report into the question, and nothing else, although each of its two
-- assignments runs the validator again.
use dingzhen_notebook.Common.{
  ◌≡◌, refl, sym, ap, ◌∙◌, Bool, true, false, List, [], ◌∷◌, String, string_eq, is_empty,
  Bool-cases, inl, inr, elem, All, from_keys-append_known, ℕ,
}
use dingzhen_notebook.Core.Question.{
  Question, PipelineStatus, needs_review, missing_reasons, force_incomplete_to_review,
  assign_status, assign_reasons, normalize, in_bounds, add_if,
}
use dingzhen_notebook.Core.Question.Laws.{
  force_incomplete_complete, force_incomplete_missing, IsValidated,
}
use dingzhen_notebook.Core.Integrity.{
  IntegrityIssue, checks, codes, issue, assess_question, transition_question,
}
use dingzhen_notebook.Core.Integrity.Checks.{
  failing, codes-assess-IsNodup, elem-codes-assess, is_empty-issues,
}

-- The first three checks, whatever their outcome and their messages.
module _ (m₁ m₂ m₃ : String) (rest : List (Bool × IntegrityIssue)) where
  abbrev first_three : Bool → Bool → Bool → List String
  first_three a b c = failing (
      (a, issue "missing_user_answer" m₁)
      ∷ (b, issue "missing_official_answer" m₂)
      ∷ (c, issue "missing_official_explanation" m₃)
      ∷ rest)

  abbrev three_reasons : Bool → Bool → Bool → List String
  three_reasons a b c =
      add_if a "missing_user_answer"
        (add_if b "missing_official_answer" (add_if c "missing_official_explanation" []))

  three_in_failing :
      (a b c : Bool) → All (λ x. elem x (first_three a b c) ≡ true) (three_reasons a b c)
  unfolding failing elem
  three_in_failing true true true = (refl, (refl, (refl, tt)))
  three_in_failing true true false = (refl, (refl, tt))
  three_in_failing true false true = (refl, (refl, tt))
  three_in_failing true false false = (refl, tt)
  three_in_failing false true true = (refl, (refl, tt))
  three_in_failing false true false = (refl, tt)
  three_in_failing false false true = (refl, tt)
  three_in_failing false false false = tt

  three_show :
      (a b c : Bool) → is_empty (three_reasons a b c) ≡ false → is_empty (first_three a b c) ≡ false
  unfolding failing
  three_show true b c h = refl
  three_show false true c h = refl
  three_show false false true h = refl
  three_show false false false h = cc

module _ (q : Question) (t : ℕ) where
  -- The validator's reasons are among the codes of the failing checks.
  missing_in_failing : All (λ c. elem c (failing (checks q t)) ≡ true) (missing_reasons q)
  unfolding missing_reasons checks
  missing_in_failing = three_in_failing _ _ _ _ _ _ _

  missing_fails : is_empty (missing_reasons q) ≡ false → is_empty (failing (checks q t)) ≡ false
  unfolding missing_reasons checks
  missing_fails = three_show _ _ _ _ _ _ _

  All-known :
      (cs : List String)
      → All (λ c. elem c (failing (checks q t)) ≡ true) cs
      → All (λ c. elem c (codes (assess_question q t).issues) ≡ true) cs
  All-known [] h = tt
  All-known (c ∷ cs) h = (elem-codes-assess c q t ∙ h.0, All-known cs h.1)

  abbrev report_status : PipelineStatus
  report_status = (assess_question q t).status

  abbrev report_codes : List String
  report_codes = codes (assess_question q t).issues

  status_of_missing : is_empty (missing_reasons q) ≡ false → report_status ≡ needs_review
  unfolding assess_question
  status_of_missing h = rw (is_empty-issues q t ∙ missing_fails h)

  -- The question with the report written into it.
  abbrev pub settled : Question
  settled = record q { verification_status = report_status; review_reasons = report_codes }

  settled_complete :
      is_empty (missing_reasons q) ≡ true
      → assign_reasons report_codes (assign_status report_status q) ≡ settled
  unfolding assign_reasons assign_status missing_reasons
  settled_complete h =
      ap (assign_reasons report_codes)
        (force_incomplete_complete (record q { verification_status = report_status }) h)
      ∙ force_incomplete_complete settled h

  settled_missing :
      is_empty (missing_reasons q) ≡ false
      → assign_reasons report_codes (assign_status report_status q) ≡ settled
  unfolding assign_reasons assign_status missing_reasons
  settled_missing h =
      ap (assign_reasons report_codes)
        (force_incomplete_missing (record q { verification_status = report_status }) h)
      ∙ force_incomplete_missing
          (record q { verification_status = needs_review; review_reasons = report_codes }) h
      ∙ (λ i. record q {
        verification_status = sym (status_of_missing h) i;
        review_reasons =
            from_keys-append_known report_codes (missing_reasons q) (codes-assess-IsNodup q t)
              (All-known (missing_reasons q) missing_in_failing) i;
      })

  -- The transition sets the status and the reasons of a question to those of its report, whatever
  -- they were before, and changes no other field.
  pub transition_question_lem : transition_question q t ≡ (
    record q {
      verification_status = (assess_question q t).status;
      review_reasons = codes (assess_question q t).issues;
    },
    assess_question q t,
  )
  unfolding transition_question
  transition_question_lem = elim (Bool-cases (is_empty (missing_reasons q))) [
    | inl complete ↦ λ i. (settled_complete complete i, assess_question q t)
    | inr missing ↦ λ i. (settled_missing missing i, assess_question q t)
  ]

  -- A settled question survives validation unchanged.
  force_incomplete-settled : force_incomplete_to_review settled ≡ settled
  unfolding missing_reasons
  force_incomplete-settled = elim (Bool-cases (is_empty (missing_reasons q))) [
    | inl complete ↦ force_incomplete_complete settled complete
    | inr missing ↦ force_incomplete_missing settled missing ∙ (λ i. record q {
      verification_status = sym (status_of_missing missing) i;
      review_reasons =
          from_keys-append_known report_codes (missing_reasons q) (codes-assess-IsNodup q t)
            (All-known (missing_reasons q) missing_in_failing) i;
    })
  ]

  normalize-settled : normalize q ≡ q → normalize settled ≡ settled
  unfolding normalize
  normalize-settled h = λ i. record q {
    verification_status = report_status;
    review_reasons = report_codes;
    options = (h i).options;
    user_answer = (h i).user_answer;
    official_answer = (h i).official_answer;
  }

  in_bounds-settled : in_bounds settled ≡ in_bounds q
  unfolding in_bounds
  in_bounds-settled = refl

  pub settled-IsValidated : in_bounds q ≡ true → normalize q ≡ q → IsValidated settled
  settled-IsValidated bounded normal = record {
    bounded = in_bounds-settled ∙ bounded;
    normal = normalize-settled normal;
    flagged_if_incomplete = force_incomplete-settled;
  }
