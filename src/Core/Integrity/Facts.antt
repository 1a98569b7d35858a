-- ===== src/Core/Integrity/Facts.antt =====
-- What the single checks of a question test, as statements.
use dingzhen_notebook.Common.{
  ◌≡◌, refl, ap, ◌≢◌, ◌↔◌, ◌≤◌, Bool, true, false, not, ◌&&◌, Option, none, some, List, [], ◌∷◌,
  String, string_eq, Text, text_eq, is_empty, arith, elem, All, IsNodup, IsNodup-iff_length, ℕ,
  ==_iff,
}
use dingzhen_notebook.Common.Dict.{lookup}
use dingzhen_notebook.Common.Strings.{strip}
use dingzhen_notebook.Core.Question.{
  Question, EvidenceRegion, unanswered, answered, unknown, AttemptState, is_none, none_or_empty,
  blank_explanation, text_or_empty,
}
use dingzhen_notebook.Core.Integrity.{
  IntegrityIssue, is_subset, same_set, labels, duplicate_labels, answer_not_in_options, differ,
  result_conflict, is_unanswered, attempt_conflict, is_low, no_regions, answer_without_evidence,
  explanation_without_evidence,
}
use dingzhen_notebook.Core.Integrity.Checks.{failing}

abbrev pub Subset : List Text → List Text → Type 0
Subset xs ys = (x : Text) → elem x xs ≡ true → elem x ys ≡ true

-- The region of a field that the evidence traces to a screenshot.
pub record IsTraced (name : String) (q : Question) : Type 0 where
  pub regions : List EvidenceRegion
  pub found : lookup name q.evidence.field_regions ≡ some regions
  pub some_region : is_empty regions ≡ false

module _ {ℓ} {A : Type ℓ} where
  pub nonempty_of_ne : (xs : List A) → xs ≢ [] → is_empty xs ≡ false
  nonempty_of_ne [] h = absurd (h refl)
  nonempty_of_ne (x ∷ xs) h = refl

  pub ne_of_nonempty : (xs : List A) → is_empty xs ≡ false → xs ≢ []
  ne_of_nonempty xs h e = cc (ap (λ (l : List A). is_empty l) e)

pub elem_of_subset :
    (xs ys : List Text) (x : Text) → is_subset xs ys ≡ true → elem x xs ≡ true → elem x ys ≡ true
unfolding is_subset
elem_of_subset [] ys x h m = cc
elem_of_subset (y ∷ xs) ys x h m = ground (arith, elem_of_subset xs ys x, ==_iff x y)

pub is_subset_of_elem : (xs ys : List Text) → Subset xs ys → is_subset xs ys ≡ true
unfolding is_subset
is_subset_of_elem [] ys h = refl
is_subset_of_elem (x ∷ xs) ys h =
    ground (arith, ==_iff x x, h x, is_subset_of_elem xs ys (λ y m. h y (ground arith)))

-- `set(xs).issubset(ys)` is inclusion.
pub is_subset_iff : (xs ys : List Text) → (is_subset xs ys ≡ true) ↔ Subset xs ys
is_subset_iff xs ys = (λ h x. elem_of_subset xs ys x h, is_subset_of_elem xs ys)

pub same_set_iff : (xs ys : List Text) → (same_set xs ys ≡ true) ↔ (Subset xs ys × Subset ys xs)
unfolding same_set
same_set_iff xs ys = (
  λ h. ((is_subset_iff xs ys).0 (ground arith), (is_subset_iff ys xs).0 (ground arith)),
  λ (p, r). ground (arith, (is_subset_iff xs ys).1 p, (is_subset_iff ys xs).1 r),
)

pub failing_nil :
    (cs : List (Bool × IntegrityIssue)) → is_empty (failing cs) ≡ true → All (λ c. c.0 ≡ false) cs
unfolding failing
failing_nil [] h = tt
failing_nil ((true, i) ∷ cs) h = cc
failing_nil ((false, i) ∷ cs) h = (refl, failing_nil cs h)

pub nil_failing :
    (cs : List (Bool × IntegrityIssue)) → All (λ c. c.0 ≡ false) cs → is_empty (failing cs) ≡ true
unfolding failing
nil_failing [] h = refl
nil_failing (c ∷ cs) h = rw (h.0) (nil_failing cs h.1)

module _ (q : Question) where
  pub labels_ok : (duplicate_labels q ≡ false) ↔ IsNodup (labels q)
  unfolding duplicate_labels
  labels_ok = (
    λ h. (IsNodup-iff_length (labels q)).0 (ground arith),
    λ h. ground (arith, (IsNodup-iff_length (labels q)).1 h),
  )

  pub conflict_free :
      (user official : List Text)
      → q.user_answer ≡ some user
      → q.official_answer ≡ some official
      → is_empty official ≡ false
      → result_conflict q ≡ differ q.is_correct (some (same_set user official))
  unfolding result_conflict
  conflict_free user official hu ho he = rw (hu, ho, he)

pub captured {ℓ} : {A : Type ℓ} (o : Option A) → is_none o ≡ false → (a : A) × (o ≡ some a)
captured none h = cc
captured (some a) h = (a, refl)

pub captured_list {ℓ} :
    {A : Type ℓ} (o : Option (List A))
    → none_or_empty o ≡ false
    → (xs : List A) × (o ≡ some xs) × (is_empty xs ≡ false)
captured_list none h = cc
captured_list (some xs) h = (xs, refl, h)

-- A text with something besides white space is not empty.
pub written : (s : Text) → is_empty (strip s) ≡ false → is_empty s ≡ false
unfolding strip
written [] h = h
written (c ∷ s) h = refl

pub captured_text :
    (o : Option Text)
    → is_empty (strip (text_or_empty o)) ≡ false
    → (s : Text) × (o ≡ some s) × (is_empty (strip s) ≡ false)
unfolding strip
captured_text none h = cc
captured_text (some s) h = (s, refl, h)

pub same_if_not_differ : (a b : Bool) → differ (some a) (some b) ≡ false → a ≡ b
same_if_not_differ true true h = refl
same_if_not_differ true false h = cc
same_if_not_differ false true h = cc
same_if_not_differ false false h = refl

pub not_differ_self : (a : Bool) → differ (some a) (some a) ≡ false
not_differ_self true = refl
not_differ_self false = refl

pub sure_of_not_low : (t : ℕ) (o : Option ℕ) → is_low t o ≡ false → (c : ℕ) → o ≡ some c → t ≤ c
sure_of_not_low t o h c e = ground arith

pub not_low_of_sure : (t : ℕ) (o : Option ℕ) → ((c : ℕ) → o ≡ some c → t ≤ c) → is_low t o ≡ false
not_low_of_sure t none h = refl
not_low_of_sure t (some c) h = ground (arith, h c refl)

pub traced : (name : String) (q : Question) → no_regions name q ≡ false → IsTraced name q
unfolding no_regions
traced name q h =
    let (regions, found, some_region) = captured_list (lookup name q.evidence.field_regions) h in
    record { regions = regions; found = found; some_region = some_region }

pub untraced : (name : String) (q : Question) → IsTraced name q → no_regions name q ≡ false
unfolding no_regions
untraced name q h = rw (h.found) (h.some_region)

pub Bool-iff : (a b : Bool) → ((a ≡ true) → b ≡ true) → ((b ≡ true) → a ≡ true) → a ≡ b
Bool-iff true true f g = refl
Bool-iff true false f g = cc (f refl)
Bool-iff false true f g = cc (g refl)
Bool-iff false false f g = refl

-- Checks of a captured answer and explanation, without the capturing.
module _ (q : Question) where
  pub not_offered :
      (official : List Text)
      → q.official_answer ≡ some official
      → is_empty official ≡ false
      → answer_not_in_options q ≡ (not (is_empty (labels q)) && not (is_subset official (labels q)))
  unfolding answer_not_in_options
  not_offered official ho he = rw (ho, he)

  pub attempted :
      (user : List Text)
      → q.user_answer ≡ some user
      → attempt_conflict q ≡ (is_unanswered q.attempt_state && not (is_empty user))
  unfolding attempt_conflict
  attempted user hu = rw hu

  pub answer_evidence :
      (official : List Text)
      → q.official_answer ≡ some official
      → is_empty official ≡ false
      → answer_without_evidence q ≡ no_regions "official_answer" q
  unfolding answer_without_evidence
  answer_evidence official ho he = rw (ho, he)

  pub explanation_evidence :
      (text : Text)
      → q.official_explanation_md ≡ some text
      → is_empty text ≡ false
      → explanation_without_evidence q ≡ no_regions "official_explanation_md" q
  unfolding explanation_without_evidence
  explanation_evidence text ht he = rw (ht, he)

  pub explained :
      (text : Text)
      → q.official_explanation_md ≡ some text
      → blank_explanation q ≡ is_empty (strip text)
  unfolding blank_explanation
  explained text ht = ap (λ o. is_empty (strip (text_or_empty o))) ht

-- The recorded result agrees with a test that decides `P`.
pub no_conflict {ℓ} :
    {P : Type ℓ} (recorded : Option Bool) (test : Bool)
    → ((test ≡ true) ↔ P)
    → ((b : Bool) → recorded ≡ some b → (b ≡ true) ↔ P)
    → differ recorded (some test) ≡ false
no_conflict none test h agrees = refl
no_conflict (some b) test h agrees =
    let (to, from) = agrees b refl in
    rw (← Bool-iff b test (λ e. h.1 (to e)) (λ e. from (h.0 e))) (not_differ_self b)

pub nothing_attempted :
    (s : AttemptState) (user : List Text)
    → (s ≡ unanswered → user ≡ [])
    → (is_unanswered s && not (is_empty user)) ≡ false
nothing_attempted answered user h = refl
nothing_attempted unknown user h = refl
nothing_attempted unanswered user h = rw (h refl)

pub all_offered :
    (official ls : List Text)
    → (ls ≢ [] → is_subset official ls ≡ true)
    → (not (is_empty ls) && not (is_subset official ls)) ≡ false
all_offered official [] h = refl
all_offered official (l ∷ ls) h = rw (h (λ e. cc))
