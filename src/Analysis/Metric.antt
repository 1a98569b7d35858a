-- ===== src/Analysis/Metric.antt =====
-- `Metric` of packages/analysis/models.py and `_metric` of packages/analysis/analyzer.py. An
-- accuracy is the fraction of its two counts, before the division.
use dingzhen_notebook.Common.{
  ℕ, zero, suc, ◌+◌, ◌≤◌, ◌≡◌, refl, Bool, true, false, not, ◌&&◌, Option, none, some, List, [],
  ◌∷◌, Text, is_empty, nat_beq, if◌then◌else◌, length, count, arith,
}
use dingzhen_notebook.Core.Question.{Question}

pub record Metric : Type 0 where
  pub key : Text
  pub total : ℕ
  pub answered : ℕ
  pub correct : ℕ
  pub wrong : ℕ
  pub unknown : ℕ
  pub accuracy : Option (ℕ × ℕ)

-- `Metric(key=key)`
abbrev pub new_metric : Text → Metric
new_metric key = record {
  key = key;
  total = 0;
  answered = 0;
  correct = 0;
  wrong = 0;
  unknown = 0;
  accuracy = none;
}

-- `Metric.finish`
unfoldable pub finish : Metric → Metric
finish m = record m {
  accuracy = if nat_beq m.answered 0 then none else some (m.correct, m.answered);
}

-- `_answerable`
unfoldable pub answerable : Question → Bool
answerable q = elim q.user_answer [ none ↦ false | some a ↦ not (is_empty a) ]

-- The counters that an answerable question moves, by its result.
abbrev pub by_result : Option Bool → Metric → Metric
by_result (some true) m = record m { answered = m.answered + 1; correct = m.correct + 1 }
by_result (some false) m = record m { answered = m.answered + 1; wrong = m.wrong + 1 }
by_result none m = record m { answered = m.answered + 1; unknown = m.unknown + 1 }

-- The body of the loop.
unfoldable pub tally : Metric → Question → Metric
unfolding answerable
tally m q =
    let counted = record m { total = m.total + 1 } in
    if answerable q
    then by_result q.is_correct counted
    else record counted { unknown = counted.unknown + 1 }

unfoldable pub tally_all : Metric → List Question → Metric
unfolding tally
tally_all m [] = m
tally_all m (q ∷ qs) = tally_all (tally m q) qs

unfoldable pub metric : Text → List Question → Metric
unfolding tally_all finish
metric key questions = finish (tally_all (new_metric key) questions)

abbrev pub is_right : Option Bool → Bool
is_right (some true) = true
is_right (some false) = false
is_right none = false

abbrev pub is_wrong : Option Bool → Bool
is_wrong (some false) = true
is_wrong (some true) = false
is_wrong none = false

-- A fraction, which there is only of something.
abbrev pub ratio : ℕ → ℕ → Option (ℕ × ℕ)
ratio c zero = none
ratio c (suc n) = some (c, suc n)

-- What the counters count.
pub record Counts (m : Metric) (qs : List Question) : Type 0 where
  pub total : m.total ≡ length qs
  pub answered : m.answered ≡ count answerable qs
  pub correct : m.correct ≡ count (λ q. answerable q && is_right q.is_correct) qs
  pub wrong : m.wrong ≡ count (λ q. answerable q && is_wrong q.is_correct) qs
  pub parts : m.correct + m.wrong + m.unknown ≡ m.total
  pub within : m.correct + m.wrong ≤ m.answered
  pub accuracy : m.accuracy ≡ ratio m.correct m.answered

-- The same from given counters on.
record CountsFrom (start m : Metric) (qs : List Question) : Type 0 where
  total : m.total ≡ start.total + length qs
  answered : m.answered ≡ start.answered + count answerable qs
  correct : m.correct ≡ start.correct + count (λ q. answerable q && is_right q.is_correct) qs
  wrong : m.wrong ≡ start.wrong + count (λ q. answerable q && is_wrong q.is_correct) qs
  parts :
      start.correct + start.wrong + start.unknown ≡ start.total
      → m.correct + m.wrong + m.unknown ≡ m.total
  within : start.correct + start.wrong ≤ start.answered → m.correct + m.wrong ≤ m.answered

tally-CountsFrom : (m : Metric) (q : Question) → CountsFrom m (tally m q) (q ∷ [])
unfolding tally count
tally-CountsFrom m q = ground arith

tally_all-CountsFrom : (m : Metric) (qs : List Question) → CountsFrom m (tally_all m qs) qs
unfolding tally_all count
tally_all-CountsFrom m [] = ground arith
tally_all-CountsFrom m (q ∷ qs) =
    let one = tally-CountsFrom m q in
    let rest = tally_all-CountsFrom (tally m q) qs in
    record {
      total = omega arith;
      answered = omega (arith, one.answered, rest.answered);
      correct = omega (arith, one.correct, rest.correct);
      wrong = omega (arith, one.wrong, rest.wrong);
      parts = λ h. rest.parts (one.parts h);
      within = λ h. rest.within (one.within h);
    }

accuracy-ratio :
    (n c : ℕ) → ◌≡◌ {A = Option (ℕ × ℕ)} (if nat_beq n 0 then none else some (c, n)) (ratio c n)
accuracy-ratio zero c = refl
accuracy-ratio (suc n) c = ground arith

-- The counters of a metric are the counts that their names say, correct, wrong and unknown make up
-- the total, correct and wrong are at most the answered, and the accuracy is the fraction of correct
-- questions among the answered, if there are any.
pub metric-Counts : (key : Text) (qs : List Question) → Counts (metric key qs) qs
unfolding metric finish
metric-Counts key qs =
    let h = tally_all-CountsFrom (new_metric key) qs in
    let m = tally_all (new_metric key) qs in
    record {
      total = omega (arith, h.total);
      answered = omega (arith, h.answered);
      correct = omega (arith, h.correct);
      wrong = omega (arith, h.wrong);
      parts = h.parts refl;
      within = h.within (omega arith);
      accuracy = accuracy-ratio m.answered m.correct;
    }
