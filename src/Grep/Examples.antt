-- ===== src/Grep/Examples.antt =====
-- Runs of the matcher (grep.c).
use zv.Prelude.{ℕ, ◌≡◌, ◌↔◌, refl, true, false, List, [], ◌∷◌}
use zv.Grep.{star, dollar, caret, matchstar, match_char, matchhere, search, match_text}
use zv.Grep.Language.{Accepts, match_text-Accepts}

-- "a*b$" in "caab".
abbrev expression : List ℕ
expression = 97 ∷ star ∷ 98 ∷ dollar ∷ []

abbrev line : List ℕ
line = 99 ∷ 97 ∷ 97 ∷ 98 ∷ []

found : match_text expression line ≡ true
unfolding match_text search matchhere matchstar match_char
found = refl

not_at_start : match_text (caret ∷ expression) line ≡ false
unfolding match_text search matchhere matchstar match_char
not_at_start = refl

match_text_example : match_text expression line ≡ true ↔ Accepts expression line
match_text_example = match_text-Accepts expression line
