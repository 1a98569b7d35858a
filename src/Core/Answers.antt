-- ===== src/Core/Answers.antt =====
-- packages/core/answers.py: choice labels out of recognised text, without inventing an answer.
use dingzhen_notebook.Common.{
  ℕ, ◌+◌, any, nat_beq, subst, All-from_keys, ◌≡◌, ◌≢◌, Bool, true, ◌&&◌, ◌||◌, Option, none, some,
  List, [], ◌∷◌, Text, text_eq, IsNodup, All, is_empty, leb, elem, from_keys, from_keys-IsNodup,
  if◌then◌else◌, txt, arith, Bool-cases, inl, inr,
}
use dingzhen_notebook.Common.Strings.{strip, upper_char}

-- A character of `[A-H]` under `re.IGNORECASE`
unfoldable pub is_choice : ℕ → Bool
is_choice c = (leb b'A' c && leb c b'H') || (leb b'a' c && leb c b'h')

-- `[item.upper() for item in _CHOICE.findall(raw)]`
unfoldable pub choices : Text → List Text
unfolding is_choice upper_char
choices [] = []
choices (c ∷ s) = let rest = choices s in if is_choice c then (upper_char c ∷ []) ∷ rest else rest

-- `_UNANSWERED`
abbrev pub unanswered_words : List Text
unanswered_words = txt "未作答" ∷ txt "未答" ∷ txt "没做" ∷ txt "未填写" ∷ []

-- `labels or None`
abbrev pub labels_or_none : List Text → Option (List Text)
labels_or_none [] = none
labels_or_none (l ∷ ls) = some (l ∷ ls)

unfoldable pub parse_choice_answers : Option Text → Option (List Text)
unfolding strip elem from_keys choices txt
parse_choice_answers none = none
parse_choice_answers (some text) =
    let raw = strip text in
    if is_empty raw
    then none
    else if elem raw unanswered_words
    then some []
    else labels_or_none (from_keys (choices raw))

-- A label A to H whose letter, in either case, stands in the text.
abbrev pub IsReadFrom : Text → Text → Type 0
IsReadFrom raw [] = ⊥
IsReadFrom raw (c ∷ []) =
    ((leb b'A' c && leb c b'H') ≡ true) × (any (λ d. nat_beq c d || nat_beq (c + 32) d) raw ≡ true)
IsReadFrom raw (c ∷ d ∷ s) = ⊥

IsReadFrom-cons : (d : ℕ) (raw l : Text) → IsReadFrom raw l → IsReadFrom (d ∷ raw) l
unfolding any
IsReadFrom-cons d raw [] h = h
IsReadFrom-cons d raw (c ∷ []) h = ground arith
IsReadFrom-cons d raw (c ∷ e ∷ l) h = h

All-read-cons :
    (d : ℕ) (raw : Text) (ls : List Text) → All (IsReadFrom raw) ls → All (IsReadFrom (d ∷ raw)) ls
All-read-cons d raw [] h = tt
All-read-cons d raw (l ∷ ls) h = (IsReadFrom-cons d raw l h.0, All-read-cons d raw ls h.1)

choice_read : (c : ℕ) (s : Text) → is_choice c ≡ true → IsReadFrom (c ∷ s) (upper_char c ∷ [])
unfolding is_choice upper_char any
choice_read c s h = ground arith

choices_read : (s : Text) → All (IsReadFrom s) (choices s)
unfolding choices
choices_read [] = tt
choices_read (c ∷ s) = elim (Bool-cases (is_choice c)) [
  | inl e ↦ rw e (choice_read c s e, All-read-cons c s (choices s) (choices_read s))
  | inr e ↦ rw e (All-read-cons c s (choices s) (choices_read s))
]

-- The answer of a text: distinct labels, each read from it, and none only by an explicit word.
pub record IsReading (text : Text) (ls : List Text) : Type 0 where
  pub distinct : IsNodup ls
  pub read : All (IsReadFrom (strip text)) ls
  pub explicit_blank : ls ≡ [] → elem (strip text) unanswered_words ≡ true

labels_or_none-some : (xs ls : List Text) → labels_or_none xs ≡ some ls → (xs ≡ ls) × (ls ≢ [])
labels_or_none-some [] ls h = cc
labels_or_none-some (x ∷ xs) ls h = (cc, λ e. cc)

-- No answer is invented: what `parse_choice_answers` returns are distinct labels, every one a
-- letter of the text, and it returns the empty answer only for one of the words for "unanswered".
pub parse_choice_answers-IsReading :
    (text : Text) (ls : List Text) → parse_choice_answers (some text) ≡ some ls → IsReading text ls
unfolding parse_choice_answers
parse_choice_answers-IsReading text ls h = elim (Bool-cases (is_empty (strip text))) [
  | inl blank ↦ cc (rw blank at h)
  | inr written ↦ elim (Bool-cases (elem (strip text) unanswered_words)) [
    | inl word ↦ unanswered_reading word (rw (written, word) at h)
    | inr other ↦ labelled_reading (rw (written, other) at h)
  ]
]
  where
    unanswered_reading :
        elem (strip text) unanswered_words ≡ true → some [] ≡ some ls → IsReading text ls
    unanswered_reading word e =
        let made : [] ≡ ls = cc in
        subst (IsReading text) made
          (record { distinct = tt; read = tt; explicit_blank = λ _. word })

    labelled_reading :
        labels_or_none (from_keys (choices (strip text))) ≡ some ls → IsReading text ls
    labelled_reading e =
        let (made, some_label) = labels_or_none-some (from_keys (choices (strip text))) ls e in
        record {
          distinct = subst (λ l. IsNodup l) made (from_keys-IsNodup (choices (strip text)));
          read =
              subst (λ l. All (IsReadFrom (strip text)) l) made
                (All-from_keys (IsReadFrom (strip text)) (choices (strip text))
                  (choices_read (strip text)));
          explicit_blank = λ b. absurd (some_label b);
        }
