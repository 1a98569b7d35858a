-- ===== src/Review/Stages.antt =====
-- When a question counts as mastered, and how its next review moves away.
use dingzhen_notebook.Common.{
  ℕ, zero, suc, ◌≡◌, refl, ◌↔◌, Bool, true, false, Option, none, some, List, Text, txt, arith,
}
use dingzhen_notebook.Core.Question.{Question}
use dingzhen_notebook.Review.{
  mastered, counted, analysis_of, or_else, history_wrong_count, stage_of, classify_stage,
}

-- No record of a wrong attempt under any of the three keys.
pub record IsClean (q : Question) : Type 0 where
  pub no_attempts : counted (txt "wrong_attempts") (analysis_of q) ≡ 0
  pub no_count : counted (txt "wrong_count") (analysis_of q) ≡ 0
  pub no_repeats : counted (txt "repeat_count") (analysis_of q) ≡ 0

or_else_zero : (a b c : ℕ) → (or_else a (or_else b c) ≡ 0) ↔ ((a ≡ 0) × (b ≡ 0) × (c ≡ 0))
or_else_zero zero zero c = (λ h. (refl, refl, h), λ h. h.2)
or_else_zero zero (suc b) c = (λ h. absurd (omega arith), λ h. absurd (omega arith))
or_else_zero (suc a) b c = (λ h. absurd (omega arith), λ h. absurd (omega arith))

IsClean-iff : (q : Question) → (history_wrong_count q ≡ 0) ↔ IsClean q
unfolding history_wrong_count
IsClean-iff q = (
  λ h.
      let (a, b, c) = (or_else_zero _ _ _).0 h in
      record { no_attempts = a; no_count = b; no_repeats = c },
  λ h. (or_else_zero _ _ _).1 (h.no_attempts, h.no_count, h.no_repeats),
)

mastered_only :
    (r : Option Bool) (n : ℕ) (a : Option (List Text))
    → stage_of r n a ≡ mastered
    → (r ≡ some true) × (n ≡ 0)
unfolding stage_of
mastered_only (some true) zero a h = (refl, refl)
mastered_only (some true) (suc n) none h = cc
mastered_only (some true) (suc n) (some a) h = cc
mastered_only (some false) n a h = ground arith
mastered_only none n none h = cc
mastered_only none n (some a) h = cc

mastered_when : (a : Option (List Text)) → stage_of (some true) 0 a ≡ mastered
unfolding stage_of
mastered_when a = refl

-- A question is mastered exactly when it was answered correctly and no wrong attempt is recorded
-- under any of the three counters.
pub classify_stage-mastered_iff :
    (q : Question) → (classify_stage q ≡ mastered) ↔ ((q.is_correct ≡ some true) × IsClean q)
unfolding classify_stage
classify_stage-mastered_iff q = (
  λ h.
      let (right, none_wrong) =
        mastered_only q.is_correct (history_wrong_count q) q.user_answer h in
      (right, (IsClean-iff q).0 none_wrong),
  λ (right, clean). rw (right, (IsClean-iff q).1 clean) (mastered_when q.user_answer),
)
