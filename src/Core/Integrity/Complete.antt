-- ===== src/Core/Integrity/Complete.antt =====
-- What it takes for a question to be verified, said without the checks.
use dingzhen_notebook.Common.{
  ◌≡◌, refl, sym, ap, ◌∙◌, ◌≢◌, ◌↔◌, ◌≤◌, Bool, true, false, not, ◌&&◌, some, List, [], ◌∷◌,
  string_eq, Text, text_eq, is_empty, arith, if◌then◌else◌, All, IsNodup, ℕ,
}
use dingzhen_notebook.Common.Strings.{strip}
use dingzhen_notebook.Core.Question.{
  Question, verified, needs_review, unanswered, is_none, none_or_empty, blank_explanation,
}
use dingzhen_notebook.Core.Integrity.{
  checks, assess_question, same_set, labels, is_unanswered, attempt_conflict, blank_stem,
}
use dingzhen_notebook.Core.Integrity.Checks.{is_empty-issues}
use dingzhen_notebook.Core.Integrity.Facts.{
  Subset, IsTraced, nonempty_of_ne, ne_of_nonempty, is_subset_iff, same_set_iff, failing_nil,
  nil_failing, labels_ok, conflict_free, captured, captured_list, written, captured_text,
  same_if_not_differ, sure_of_not_low, not_low_of_sure, traced, untraced, not_offered, attempted,
  answer_evidence, explanation_evidence, explained, no_conflict, nothing_attempted, all_offered,
}

pub record IsComplete (q : Question) (threshold : ℕ) : Type 0 where
  pub user : List Text
  pub user_captured : q.user_answer ≡ some user
  pub official : List Text
  pub official_captured : q.official_answer ≡ some official
  pub official_nonempty : official ≢ []
  pub explanation : Text
  pub explanation_captured : q.official_explanation_md ≡ some explanation
  pub explanation_written : strip explanation ≢ []
  pub stem_written : strip q.stem_md ≢ []
  pub labels_distinct : IsNodup (labels q)
  pub answer_offered : labels q ≢ [] → Subset official (labels q)
  pub result_agrees :
      (b : Bool)
      → q.is_correct ≡ some b
      → (b ≡ true) ↔ (Subset user official × Subset official user)
  pub unanswered_blank : q.attempt_state ≡ unanswered → user ≡ []
  pub ocr_sure : (c : ℕ) → q.ocr_confidence ≡ some c → threshold ≤ c
  pub parse_sure : (c : ℕ) → q.parse_confidence ≡ some c → threshold ≤ c
  pub question_shown : q.evidence.question_frames ≢ []
  pub analysis_shown : q.evidence.analysis_frames ≢ []
  pub answer_traced : IsTraced "official_answer" q
  pub explanation_traced : IsTraced "official_explanation_md" q

verified_if : (b : Bool) → (if b then verified else needs_review) ≡ verified → b ≡ true
verified_if true h = refl
verified_if false h = cc

module _ (q : Question) (t : ℕ) where
  IsComplete-of_passing : All (λ c. c.0 ≡ false) (checks q t) → IsComplete q t
  unfolding checks
  IsComplete-of_passing (a, (b, (c, (d, (e, (f, (g, (h, (i, (j, (k, (l, (m, (n, _)))))))))))))) =
      let (user, hu) = captured q.user_answer a in
      let (official, ho, he) = captured_list q.official_answer b in
      let (text, ht, hw) =
        captured_text q.official_explanation_md (unfold blank_explanation in c) in
      record {
        user = user;
        user_captured = hu;
        official = official;
        official_captured = ho;
        official_nonempty = ne_of_nonempty official he;
        explanation = text;
        explanation_captured = ht;
        explanation_written = ne_of_nonempty (strip text) hw;
        stem_written = ne_of_nonempty (strip q.stem_md) (unfold blank_stem in d);
        labels_distinct = (labels_ok q).0 e;
        answer_offered = λ some_label.
            (is_subset_iff official (labels q)).0
              (ground (arith, not_offered q official ho he, nonempty_of_ne (labels q) some_label));
        result_agrees = λ r hr. agrees user official r (
            same_if_not_differ r (same_set user official)
              (rw hr at (sym (conflict_free q user official hu ho he) ∙ g)));
        unanswered_blank = λ u. blank user (attempted q user hu) u h;
        ocr_sure = sure_of_not_low t q.ocr_confidence i;
        parse_sure = sure_of_not_low t q.parse_confidence j;
        question_shown = ne_of_nonempty q.evidence.question_frames k;
        analysis_shown = ne_of_nonempty q.evidence.analysis_frames l;
        answer_traced = traced "official_answer" q (sym (answer_evidence q official ho he) ∙ m);
        explanation_traced =
            traced "official_explanation_md" q
              (sym (explanation_evidence q text ht (written text hw)) ∙ n);
      }
    where
      agrees :
          (user official : List Text) (r : Bool)
          → r ≡ same_set user official
          → (r ≡ true) ↔ (Subset user official × Subset official user)
      agrees user official r e = rw e (same_set_iff user official)

      blank :
          (user : List Text)
          → attempt_conflict q ≡ (is_unanswered q.attempt_state && not (is_empty user))
          → q.attempt_state ≡ unanswered
          → attempt_conflict q ≡ false
          → user ≡ []
      blank [] e u x = refl
      blank (w ∷ ws) e u x = cc (rw u at (sym e ∙ x))

  passing_of_complete : IsComplete q t → All (λ c. c.0 ≡ false) (checks q t)
  unfolding checks
  passing_of_complete c =
      let he = nonempty_of_ne c.official c.official_nonempty in
      let hw = nonempty_of_ne (strip c.explanation) c.explanation_written in
      (
        ap (λ o. is_none o) c.user_captured,
        (
          ap (λ o. none_or_empty o) c.official_captured ∙ he,
          (
            explained q c.explanation c.explanation_captured ∙ hw,
            (
              unfold blank_stem in nonempty_of_ne (strip q.stem_md) c.stem_written,
              (
                (labels_ok q).1 c.labels_distinct,
                (
                  not_offered q c.official c.official_captured he
                      ∙ all_offered c.official (labels q)
                          (λ l. (is_subset_iff c.official (labels q)).1 (c.answer_offered l)),
                  (
                    conflict_free q c.user c.official c.user_captured c.official_captured he
                        ∙ no_conflict q.is_correct (same_set c.user c.official)
                            (same_set_iff c.user c.official) c.result_agrees,
                    (
                      attempted q c.user c.user_captured
                          ∙ nothing_attempted q.attempt_state c.user c.unanswered_blank,
                      (
                        not_low_of_sure t q.ocr_confidence c.ocr_sure,
                        (
                          not_low_of_sure t q.parse_confidence c.parse_sure,
                          (
                            nonempty_of_ne q.evidence.question_frames c.question_shown,
                            (
                              nonempty_of_ne q.evidence.analysis_frames c.analysis_shown,
                              (
                                answer_evidence q c.official c.official_captured he
                                    ∙ untraced "official_answer" q c.answer_traced,
                                (
                                  explanation_evidence q c.explanation c.explanation_captured
                                        (written c.explanation hw)
                                      ∙ untraced "official_explanation_md" q c.explanation_traced,
                                  tt,
                                ),
                              ),
                            ),
                          ),
                        ),
                      ),
                    ),
                  ),
                ),
              ),
            ),
          ),
        ),
      )

  status_of_issues :
      ((assess_question q t).status ≡ verified) ↔ (is_empty (assess_question q t).issues ≡ true)
  unfolding assess_question
  status_of_issues = (verified_if _, λ h. rw h)

  -- A question is verified exactly when everything that a study record needs was captured and
  -- agrees: the answers, the explanation, the stem, distinct option labels that offer the official
  -- answer, a recorded result that is the comparison of the two answers, confidences at or above
  -- the threshold, and evidence for each official field.
  pub assess-verified_iff : ((assess_question q t).status ≡ verified) ↔ IsComplete q t
  assess-verified_iff = (
    λ h.
        IsComplete-of_passing
          (failing_nil (checks q t) (sym (is_empty-issues q t) ∙ status_of_issues.0 h)),
    λ c.
        status_of_issues.1 (is_empty-issues q t ∙ nil_failing (checks q t) (passing_of_complete c)),
  )
