-- ===== src/Common/Strings/Pieces.antt =====
-- `str.split` at characters of a set, without the empty pieces.
use dingzhen_notebook.Common.Equality.{Text}
use dingzhen_notebook.Common.Lists.{All}
use Prim.Native.Nat.{ℕ}
use mathlib.Core.Path.{◌≡◌, refl, sym, ap, ◌∙◌}
use mathlib.Core.Bool.{Bool, true, false}
use mathlib.Core.List.{List, [], ◌∷◌, ◌++◌}

abbrev pub keep_word : Text → List Text → List Text
keep_word [] rest = rest
keep_word (c ∷ word) rest = (c ∷ word) ∷ rest

-- The pieces, with what there is of the first one.
unfoldable pub pieces : (ℕ → Bool) → Text → Text → List Text
pieces p word [] = keep_word word []
pieces p word (c ∷ s) = elim (p c) [
  | true ↦ keep_word word (pieces p [] s)
  | false ↦ pieces p (word ++ c ∷ []) s
]

append_assoc : (a : Text) (c : ℕ) (s : Text) → (a ++ c ∷ []) ++ s ≡ a ++ (c ∷ s)
append_assoc [] c s = refl
append_assoc (d ∷ a) c s = ap (λ t. d ∷ t) (append_assoc a c s)

append_nil : (a : Text) → a ++ [] ≡ a
append_nil [] = refl
append_nil (d ∷ a) = ap (λ t. d ∷ t) (append_nil a)

-- A text without a separator is one piece.
pub pieces_whole :
    (p : ℕ → Bool) (word s : Text)
    → All (λ c. p c ≡ false) s
    → pieces p word s ≡ keep_word (word ++ s) []
unfolding pieces
pieces_whole p word [] h = ap (λ t. keep_word t []) (sym (append_nil word))
pieces_whole p word (c ∷ s) h =
    rw (pieces, h.0)
      (pieces_whole p (word ++ c ∷ []) s h.1 ∙ ap (λ t. keep_word t []) (append_assoc word c s))

-- What stands before a separator is a piece.
pub pieces_before :
    (p : ℕ → Bool) (word s : Text) (c : ℕ) (rest : Text)
    → All (λ d. p d ≡ false) s
    → p c ≡ true
    → pieces p word (s ++ c ∷ rest) ≡ keep_word (word ++ s) (pieces p [] rest)
unfolding pieces
pieces_before p word [] c rest h e =
    rw (pieces, e) (ap (λ t. keep_word t (pieces p [] rest)) (sym (append_nil word)))
pieces_before p word (d ∷ s) c rest h e =
    rw (pieces, h.0)
      (pieces_before p (word ++ d ∷ []) s c rest h.1 e
        ∙ ap (λ t. keep_word t (pieces p [] rest)) (append_assoc word d s))
