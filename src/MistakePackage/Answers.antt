-- ===== src/MistakePackage/Answers.antt =====
-- The answers in a mistake package: `_answer_text` writes them as one text, and `_parse_answers`
-- reads them (packages/mistake_package/codec.py).
use dingzhen_notebook.Common.{
  ℕ, ◌≡◌, refl, ap, ◌∙◌, Bool, false, ◌||◌, Option, none, some, List, [], ◌∷◌, ◌++◌, Text, nat_beq,
  All,
}
use dingzhen_notebook.Common.Strings.{
  strip, strip_by, lstrip_by, rstrip_by, keep_before, is_space, upper, upper_char,
}
use dingzhen_notebook.Common.Strings.Pieces.{keep_word, pieces, pieces_whole}

-- A character of `[ ,，、;；|/]`
unfoldable pub is_separator : ℕ → Bool
is_separator c =
    nat_beq c 32
    || nat_beq c b','
    || nat_beq c 0xff0c
    || nat_beq c 0x3001
    || nat_beq c b';'
    || nat_beq c 0xff1b
    || nat_beq c b'|'
    || nat_beq c b'/'

unfoldable pub parse_answers : Text → List Text
unfolding pieces is_separator strip upper
parse_answers text = pieces is_separator [] (upper (strip text))

unfoldable pub concat : List Text → Text
concat [] = []
concat (s ∷ ss) = s ++ concat ss

-- `_answer_text`
unfoldable pub answer_text : Option (List Text) → Text
unfolding concat
answer_text none = []
answer_text (some values) = concat values

-- A character of a label: not white space, no separator, and not changed by `upper`.
pub record IsPlain (c : ℕ) : Type 0 where
  pub solid : is_space c ≡ false
  pub inner : is_separator c ≡ false
  pub capital : upper_char c ≡ c

lstrip_by_plain : (s : Text) → All IsPlain s → lstrip_by is_space s ≡ s
unfolding lstrip_by
lstrip_by_plain [] h = refl
lstrip_by_plain (c ∷ s) h = rw h.0.solid refl

keep_before_plain : (c : ℕ) (s : Text) → is_space c ≡ false → keep_before is_space c s ≡ c ∷ s
unfolding keep_before
keep_before_plain c [] h = rw h refl
keep_before_plain c (d ∷ s) h = refl

rstrip_by_plain : (s : Text) → All IsPlain s → rstrip_by is_space s ≡ s
unfolding rstrip_by
rstrip_by_plain [] h = refl
rstrip_by_plain (c ∷ s) h =
    ap (keep_before is_space c) (rstrip_by_plain s h.1) ∙ keep_before_plain c s h.0.solid

strip_plain : (s : Text) → All IsPlain s → strip s ≡ s
unfolding strip strip_by
strip_plain s h = ap (rstrip_by is_space) (lstrip_by_plain s h) ∙ rstrip_by_plain s h

upper_plain : (s : Text) → All IsPlain s → upper s ≡ s
unfolding upper
upper_plain [] h = refl
upper_plain (c ∷ s) h = cc (h.0.capital, upper_plain s h.1)

All-inner : (s : Text) → All IsPlain s → All (λ c. is_separator c ≡ false) s
All-inner [] h = tt
All-inner (c ∷ s) h = (h.0.inner, All-inner s h.1)

parse_answers_plain : (s : Text) → All IsPlain s → parse_answers s ≡ keep_word s []
unfolding parse_answers
parse_answers_plain s h =
    ap (pieces is_separator []) (ap upper (strip_plain s h) ∙ upper_plain s h)
    ∙ pieces_whole is_separator [] s (All-inner s h)

All-append : (s t : Text) → All IsPlain s → All IsPlain t → All IsPlain (s ++ t)
All-append [] t h k = k
All-append (c ∷ s) t h k = (h.0, All-append s t h.1 k)

All-concat : (ss : List Text) → All (All IsPlain) ss → All IsPlain (concat ss)
unfolding concat
All-concat [] h = tt
All-concat (s ∷ ss) h = All-append s (concat ss) h.0 (All-concat ss h.1)

-- Labels without white space, separators and small letters, written to a package and read from it,
-- come back as one label: all of them joined, or no label if they are all empty. So one label that
-- is not empty comes back as it was, and two do not.
pub parse_answers-answer_text :
    (labels : List Text)
    → All (All IsPlain) labels
    → parse_answers (answer_text (some labels)) ≡ keep_word (concat labels) []
unfolding answer_text
parse_answers-answer_text labels h = parse_answers_plain (concat labels) (All-concat labels h)
