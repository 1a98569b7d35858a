-- ===== src/Core/Integrity/Checks.antt =====
-- The list of issues holds the codes of the failing checks, each once, in the order of the checks.
use dingzhen_notebook.Common.{
  ◌≡◌, refl, sym, ap, ◌∙◌, Bool, true, false, List, [], ◌∷◌, ◌++◌, String, string_eq, ◌==◌, ==_iff,
  is_empty, arith, Bool-cases, inl, inr, if◌then◌else◌, any, elem, IsNodup, add_key, add_keys,
  from_keys, is_empty-from_keys, from_keys-IsNodup, elem-from_keys, ℕ,
}
use dingzhen_notebook.Core.Question.{Question}
use dingzhen_notebook.Core.Integrity.{
  IntegrityIssue, add, run_checks, checks, codes, assess_question,
}

any-eq-elem :
    (c : String) (issues : List IntegrityIssue)
    → any (λ i. i.code == c) issues ≡ elem c (codes issues)
unfolding any elem
any-eq-elem c [] = refl
any-eq-elem c (i ∷ is) = ground (arith, any-eq-elem c is, ==_iff i.code c, ==_iff c i.code)

codes-append : (xs ys : List IntegrityIssue) → codes (xs ++ ys) ≡ codes xs ++ codes ys
codes-append [] ys = refl
codes-append (x ∷ xs) ys = ap (◌∷◌ x.code) (codes-append xs ys)

codes-add :
    (issues : List IntegrityIssue) (new : IntegrityIssue)
    → codes (add issues new) ≡ add_key (codes issues) new.code
unfolding add add_key
codes-add issues new = elim (Bool-cases (elem new.code (codes issues))) [
  | inl old ↦ rw (any-eq-elem new.code issues) (rw old)
  | inr fresh ↦ rw (any-eq-elem new.code issues) (rw fresh (codes-append issues (new ∷ [])))
]

-- The codes of the checks that fail.
unfoldable pub failing : List (Bool × IntegrityIssue) → List String
failing [] = []
failing ((fails, new) ∷ rest) = if fails then new.code ∷ failing rest else failing rest

codes-run_checks :
    (issues : List IntegrityIssue) (cs : List (Bool × IntegrityIssue))
    → codes (run_checks issues cs) ≡ add_keys (codes issues) (failing cs)
unfolding run_checks add_keys failing
codes-run_checks issues [] = refl
codes-run_checks issues ((true, new) ∷ cs) =
    codes-run_checks (add issues new) cs ∙ ap (λ l. add_keys l (failing cs)) (codes-add issues new)
codes-run_checks issues ((false, new) ∷ cs) = codes-run_checks issues cs

pub codes-assess :
    (q : Question) (t : ℕ) → codes (assess_question q t).issues ≡ from_keys (failing (checks q t))
unfolding assess_question from_keys
codes-assess q t = codes-run_checks [] (checks q t)

is_empty-codes : (issues : List IntegrityIssue) → is_empty (codes issues) ≡ is_empty issues
is_empty-codes [] = refl
is_empty-codes (i ∷ is) = refl

pub is_empty-issues :
    (q : Question) (t : ℕ) → is_empty (assess_question q t).issues ≡ is_empty (failing (checks q t))
is_empty-issues q t =
    sym (is_empty-codes (assess_question q t).issues)
    ∙ ap (λ l. is_empty l) (codes-assess q t)
    ∙ is_empty-from_keys (failing (checks q t))

pub is_empty-codes-assess :
    (q : Question) (t : ℕ)
    → is_empty (codes (assess_question q t).issues) ≡ is_empty (assess_question q t).issues
is_empty-codes-assess q t = is_empty-codes (assess_question q t).issues

pub codes-assess-IsNodup : (q : Question) (t : ℕ) → IsNodup (codes (assess_question q t).issues)
codes-assess-IsNodup q t = rw (codes-assess q t) (from_keys-IsNodup (failing (checks q t)))

pub elem-codes-assess :
    (c : String) (q : Question) (t : ℕ)
    → elem c (codes (assess_question q t).issues) ≡ elem c (failing (checks q t))
elem-codes-assess c q t = rw (codes-assess q t) (elem-from_keys c (failing (checks q t)))
