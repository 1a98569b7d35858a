-- ===== src/Capture/Adb/Words.antt =====
-- Words joined by spaces, and what splitting and stripping them gives.
use dingzhen_notebook.Common.{
  ℕ, ◌≡◌, refl, ap, ◌∙◌, false, Option, none, some, List, [], ◌∷◌, ◌++◌, Text, text_eq, All, arith,
  is_empty,
}
use dingzhen_notebook.Common.Strings.{strip, strip_by, lstrip_by, rstrip_by, keep_before, is_space}
use dingzhen_notebook.Common.Strings.Pieces.{keep_word, pieces, pieces_whole, pieces_before}
use dingzhen_notebook.Capture.Adb.Devices.{is_line_end, spaced}

abbrev pub IsSolid : Text → Type 0
IsSolid s = All (λ c. is_space c ≡ false) s

-- A word: a first character and more, none of them white space.
abbrev pub IsWord : Text → Type 0
IsWord [] = ⊥
IsWord (c ∷ s) = IsSolid (c ∷ s)

-- A value of an attribute that is there is a word.
abbrev pub IsValue : Option Text → Type 0
IsValue none = Unit
IsValue (some s) = IsWord s

keep_word-word : (w : Text) (rest : List Text) → IsWord w → keep_word w rest ≡ w ∷ rest
keep_word-word [] rest h = absurd h
keep_word-word (c ∷ s) rest h = refl

solid : (w : Text) → IsWord w → IsSolid w
solid [] h = absurd h
solid (c ∷ s) h = h

pub pieces-spaced :
    (w : Text) (ws : List Text)
    → IsWord w
    → All IsWord ws
    → pieces is_space [] (spaced w ws) ≡ w ∷ ws
unfolding spaced is_space
pieces-spaced w [] h hs = pieces_whole is_space [] w (solid w h) ∙ keep_word-word w [] h
pieces-spaced w (v ∷ ws) h hs =
    pieces_before is_space [] w b' ' (spaced v ws) (solid w h) refl
    ∙ keep_word-word w (pieces is_space [] (spaced v ws)) h
    ∙ ap (λ r. w ∷ r) (pieces-spaced v ws hs.0 hs.1)

no_line_end : (c : ℕ) → is_space c ≡ false → is_line_end c ≡ false
unfolding is_space is_line_end
no_line_end c h = ground arith

All-no_line_end : (s : Text) → IsSolid s → All (λ c. is_line_end c ≡ false) s
All-no_line_end [] h = tt
All-no_line_end (c ∷ s) h = (no_line_end c h.0, All-no_line_end s h.1)

abbrev pub IsOneLine : Text → Type 0
IsOneLine s = All (λ c. is_line_end c ≡ false) s

All-join : (s t : Text) → IsOneLine s → IsOneLine t → IsOneLine (s ++ b' ' ∷ t)
unfolding is_line_end
All-join [] t h k = (refl, k)
All-join (c ∷ s) t h k = (h.0, All-join s t h.1 k)

pub spaced-IsOneLine :
    (w : Text) (ws : List Text) → IsWord w → All IsWord ws → IsOneLine (spaced w ws)
unfolding spaced
spaced-IsOneLine w [] h hs = All-no_line_end w (solid w h)
spaced-IsOneLine w (v ∷ ws) h hs =
    All-join w (spaced v ws) (All-no_line_end w (solid w h)) (spaced-IsOneLine v ws hs.0 hs.1)

-- Text that ends in a word keeps its end.
keep_before_more : (c : ℕ) (s : Text) → is_empty s ≡ false → keep_before is_space c s ≡ c ∷ s
unfolding keep_before
keep_before_more c [] h = cc
keep_before_more c (d ∷ s) h = refl

rstrip_word : (w : Text) → IsSolid w → rstrip_by is_space w ≡ w
unfolding rstrip_by keep_before
rstrip_word [] h = refl
rstrip_word (c ∷ s) h = ap (keep_before is_space c) (rstrip_word s h.1) ∙ last c s h.0
  where
    last : (c : ℕ) (s : Text) → is_space c ≡ false → keep_before is_space c s ≡ c ∷ s
    last c [] e = rw e refl
    last c (d ∷ s) e = refl

is_empty-join : (s t : Text) (c : ℕ) → is_empty (s ++ c ∷ t) ≡ false
is_empty-join [] t c = refl
is_empty-join (d ∷ s) t c = refl

rstrip_after :
    (s t : Text) (c : ℕ)
    → rstrip_by is_space t ≡ t
    → is_empty t ≡ false
    → rstrip_by is_space (s ++ c ∷ t) ≡ s ++ c ∷ t
unfolding rstrip_by
rstrip_after [] t c h k = ap (keep_before is_space c) h ∙ keep_before_more c t k
rstrip_after (d ∷ s) t c h k =
    ap (keep_before is_space d) (rstrip_after s t c h k)
    ∙ keep_before_more d (s ++ c ∷ t) (is_empty-join s t c)

pub is_empty-spaced : (w : Text) (ws : List Text) → IsWord w → is_empty (spaced w ws) ≡ false
unfolding spaced
is_empty-spaced [] ws h = absurd h
is_empty-spaced (c ∷ s) [] h = refl
is_empty-spaced (c ∷ s) (v ∷ ws) h = refl

rstrip-spaced :
    (w : Text) (ws : List Text)
    → IsWord w
    → All IsWord ws
    → rstrip_by is_space (spaced w ws) ≡ spaced w ws
unfolding spaced
rstrip-spaced w [] h hs = rstrip_word w (solid w h)
rstrip-spaced w (v ∷ ws) h hs =
    rstrip_after w (spaced v ws) b' ' (rstrip-spaced v ws hs.0 hs.1) (is_empty-spaced v ws hs.0)

lstrip-spaced :
    (w : Text) (ws : List Text) → IsWord w → lstrip_by is_space (spaced w ws) ≡ spaced w ws
unfolding spaced lstrip_by
lstrip-spaced [] ws h = absurd h
lstrip-spaced (c ∷ s) [] h = rw h.0 refl
lstrip-spaced (c ∷ s) (v ∷ ws) h = rw h.0 refl

pub strip-spaced :
    (w : Text) (ws : List Text) → IsWord w → All IsWord ws → strip (spaced w ws) ≡ spaced w ws
unfolding strip strip_by
strip-spaced w ws h hs = ap (rstrip_by is_space) (lstrip-spaced w ws h) ∙ rstrip-spaced w ws h hs
