-- ===== src/Core/Question/Laws.antt =====
-- Validation of a question reaches a fixed point, and what the model validator does.
use dingzhen_notebook.Common.{
  ◌≡◌, refl, sym, subst, ap, ◌∙◌, true, false, not, Option, none, some, List, [], ◌∷◌, map, Text,
  select, is_empty, Bool-cases, inl, inr, if_some, from_keys, from_keys-append_again, ◌++◌,
  string_eq,
}
use dingzhen_notebook.Common.Strings.{strip, tidy, tidy_idem, strip-tidy, is_empty-tidy}
use dingzhen_notebook.Core.Question.{
  Question, QuestionOption, needs_review, normalize_label, normalize_answers, normalize,
  missing_reasons, force_incomplete_to_review, model_validate, in_bounds,
}

-- What the validator makes of an incomplete question.
abbrev pub flagged : Question → Question
flagged q = record q {
  verification_status = needs_review;
  review_reasons = from_keys (q.review_reasons ++ missing_reasons q);
}

pub force_incomplete_complete :
    (q : Question) → is_empty (missing_reasons q) ≡ true → force_incomplete_to_review q ≡ q
unfolding force_incomplete_to_review
force_incomplete_complete q h = rw h

pub force_incomplete_missing :
    (q : Question) → is_empty (missing_reasons q) ≡ false → force_incomplete_to_review q ≡ flagged q
unfolding force_incomplete_to_review
force_incomplete_missing q h = rw h

missing_reasons-flagged : (q : Question) → missing_reasons (flagged q) ≡ missing_reasons q
unfolding missing_reasons
missing_reasons-flagged q = refl

flagged_idem : (q : Question) → flagged (flagged q) ≡ flagged q
unfolding missing_reasons
flagged_idem q = λ i. record q {
  verification_status = needs_review;
  review_reasons = from_keys-append_again q.review_reasons (missing_reasons q) i;
}

pub force_incomplete_idem :
    (q : Question)
    → force_incomplete_to_review (force_incomplete_to_review q) ≡ force_incomplete_to_review q
force_incomplete_idem q = elim (Bool-cases (is_empty (missing_reasons q))) [
  | inl complete ↦ ap force_incomplete_to_review (force_incomplete_complete q complete)
  | inr missing ↦
      ap force_incomplete_to_review (force_incomplete_missing q missing)
      ∙ force_incomplete_missing (flagged q)
          (ap (λ rs. is_empty rs) (missing_reasons-flagged q) ∙ missing)
      ∙ flagged_idem q
      ∙ sym (force_incomplete_missing q missing)
]

kept_is_tidy :
    (xs : List Text)
    → map tidy (
        select
          (λ item. not (is_empty (strip item)))
          (map tidy (select (λ item. not (is_empty (strip item))) xs)))
      ≡ map tidy (select (λ item. not (is_empty (strip item))) xs)
unfolding select
kept_is_tidy [] = refl
kept_is_tidy (x ∷ xs) = elim (Bool-cases (is_empty (strip x))) [
  | inl blank ↦ rw blank (kept_is_tidy xs)
  | inr kept ↦
      rw kept
        (rw (strip-tidy x) (rw (is_empty-tidy x) (rw kept (cc (tidy_idem x, kept_is_tidy xs)))))
]

pub normalize_answers_idem :
    (a : Option (List Text)) → normalize_answers (normalize_answers a) ≡ normalize_answers a
unfolding normalize_answers
normalize_answers_idem none = refl
normalize_answers_idem (some xs) = ap (λ l. some l) (kept_is_tidy xs)

normalize_label_idem :
    (os : List QuestionOption)
    → map normalize_label (map normalize_label os) ≡ map normalize_label os
unfolding normalize_label
normalize_label_idem [] = refl
normalize_label_idem (o ∷ os) =
    λ i. record o { label = tidy_idem o.label i } ∷ normalize_label_idem os i

pub normalize_idem : (q : Question) → normalize (normalize q) ≡ normalize q
unfolding normalize
normalize_idem q = λ i. record q {
  options = normalize_label_idem q.options i;
  user_answer = normalize_answers_idem q.user_answer i;
  official_answer = normalize_answers_idem q.official_answer i;
}

-- Being normal is a matter of three fields.
normal_with_flag : (q : Question) → normalize q ≡ q → normalize (flagged q) ≡ flagged q
unfolding normalize
normal_with_flag q h = λ i. record q {
  verification_status = needs_review;
  review_reasons = from_keys (q.review_reasons ++ missing_reasons q);
  options = (h i).options;
  user_answer = (h i).user_answer;
  official_answer = (h i).official_answer;
}

pub normalize-force_incomplete :
    (q : Question)
    → normalize q ≡ q
    → normalize (force_incomplete_to_review q) ≡ force_incomplete_to_review q
normalize-force_incomplete q h = elim (Bool-cases (is_empty (missing_reasons q))) [
  | inl complete ↦ rw (force_incomplete_complete q complete) h
  | inr missing ↦ rw (force_incomplete_missing q missing) (normal_with_flag q h)
]

in_bounds-force_incomplete : (q : Question) → in_bounds (force_incomplete_to_review q) ≡ in_bounds q
unfolding in_bounds force_incomplete_to_review
in_bounds-force_incomplete q = elim (Bool-cases (is_empty (missing_reasons q))) [
  | inl complete ↦ rw complete
  | inr missing ↦ rw missing
]

in_bounds-normalize : (q : Question) → in_bounds (normalize q) ≡ in_bounds q
unfolding in_bounds normalize
in_bounds-normalize q = refl

-- A question that validation accepts and leaves as it is.
pub record IsValidated (q : Question) : Type 0 where
  pub bounded : in_bounds q ≡ true
  pub normal : normalize q ≡ q
  pub flagged_if_incomplete : force_incomplete_to_review q ≡ q

pub IsValidated-force_incomplete :
    (q : Question)
    → in_bounds q ≡ true
    → normalize q ≡ q
    → IsValidated (force_incomplete_to_review q)
IsValidated-force_incomplete q bounded normal = record {
  bounded = in_bounds-force_incomplete q ∙ bounded;
  normal = normalize-force_incomplete q normal;
  flagged_if_incomplete = force_incomplete_idem q;
}

pub model_validate_of_validated : (q : Question) → IsValidated q → model_validate q ≡ some q
unfolding model_validate
model_validate_of_validated q v =
    rw (v.bounded)
      (ap (λ r. some r) (ap force_incomplete_to_review v.normal ∙ v.flagged_if_incomplete))

pub model_validate-IsValidated : (q q' : Question) → model_validate q ≡ some q' → IsValidated q'
unfolding model_validate
model_validate-IsValidated q q' h =
    let (fits, made) = if_some (in_bounds q) (force_incomplete_to_review (normalize q)) q' h in
    subst IsValidated made
      (IsValidated-force_incomplete (normalize q) (in_bounds-normalize q ∙ fits) (normalize_idem q))

-- Validation reaches a fixed point at once: what `model_validate` returns, it accepts again and
-- returns unchanged.
pub model_validate_idem :
    (q q' : Question) → model_validate q ≡ some q' → model_validate q' ≡ some q'
model_validate_idem q q' h = model_validate_of_validated q' (model_validate-IsValidated q q' h)
