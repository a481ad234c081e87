-- ===== src/Grep.antt =====
-- grep.c: the matcher of regular expressions.  A C string is the list of its bytes before the NUL.
pub mod Language
mod Examples
use zv.Prelude.{ℕ, Bool, true, false, ◌&&◌, ◌||◌, ◌==◌, if◌then◌else◌, List, [], ◌∷◌}

abbrev pub star : ℕ
star = b'*'

abbrev pub dot : ℕ
dot = b'.'

abbrev pub dollar : ℕ
dollar = b'$'

abbrev pub caret : ℕ
caret = b'^'

-- `matchstar`; `here` is `matchhere` of the rest of the expression.
unfoldable pub matchstar : (List ℕ → Bool) → ℕ → List ℕ → Bool
matchstar here c [] = here []
matchstar here c (t ∷ ts) =
    let more = matchstar here c ts in here (t ∷ ts) || ((t == c || c == dot) && more)

-- The last test of `matchhere`; `here` is `matchhere` of the rest.
unfoldable pub match_char : (List ℕ → Bool) → ℕ → List ℕ → Bool
match_char here c [] = false
match_char here c (t ∷ ts) = (c == dot || c == t) && here ts

abbrev pub is_end : List ℕ → Bool
is_end [] = true
is_end (t ∷ ts) = false

unfoldable pub matchhere : List ℕ → List ℕ → Bool
unfolding matchstar match_char
matchhere [] text = true
matchhere (c ∷ []) text = if c == dollar then is_end text else match_char (λ ts. true) c text
matchhere (c ∷ d ∷ re) text =
    let starred = matchstar (matchhere re) c text in
    let single = match_char (matchhere (d ∷ re)) c text in if d == star then starred else single

-- The loop of `match`.
unfoldable pub search : List ℕ → List ℕ → Bool
unfolding matchhere
search re [] = matchhere re []
search re (t ∷ ts) = let more = search re ts in matchhere re (t ∷ ts) || more

-- `match`, a word of antt.
unfoldable pub match_text : List ℕ → List ℕ → Bool
unfolding matchhere search
match_text [] text = search [] text
match_text (c ∷ re) text = if c == caret then matchhere re text else search (c ∷ re) text
