-- ===== src/Grep/Language.antt =====
-- The language of a regular expression, and that `match` (grep.c) decides it.
use zv.Prelude.{
  ℕ, ◌≡◌, ◌↔◌, ◌⊎◌, refl, sym, ap, ◌∙◌, inl, inr, arith, Bool, true, ◌==◌, if◌then◌else◌, List, [],
  ◌∷◌, ◌++◌, Bool-cases,
}
use zv.Grep.{star, dot, dollar, caret, matchstar, match_char, is_end, matchhere, search, match_text}

-- What an expression is made of.
pub data Piece : Type 0 where
  one : ℕ → Piece
  many : ℕ → Piece
  the_end : Piece

-- A character and then `*` is a repetition, a `$` at the end is the end of the text.
unfoldable pub pieces : List ℕ → List Piece
pieces [] = []
pieces (c ∷ []) = if c == dollar then the_end ∷ [] else one c ∷ []
pieces (c ∷ d ∷ re) =
    let after = pieces re in
    let next = pieces (d ∷ re) in if d == star then many c ∷ after else one c ∷ next

-- The character of an expression stands for the character of a text.
abbrev pub Fits : ℕ → ℕ → Type 0
Fits c t = (c ≡ dot) ⊎ (c ≡ t)

-- The pieces describe a text from its start on.
pub data Matches : List Piece → List ℕ → Type 0 where
  nothing_left : {text : List ℕ} → Matches [] text
  end_of_text : Matches (the_end ∷ []) []
  char :
      {c t : ℕ} {ps : List Piece} {ts : List ℕ}
      → Fits c t
      → Matches ps ts
      → Matches (one c ∷ ps) (t ∷ ts)
  stop : {c : ℕ} {ps : List Piece} {text : List ℕ} → Matches ps text → Matches (many c ∷ ps) text
  again :
      {c t : ℕ} {ps : List Piece} {ts : List ℕ}
      → Fits c t
      → Matches (many c ∷ ps) ts
      → Matches (many c ∷ ps) (t ∷ ts)

matchstar_finds :
    (here : List ℕ → Bool) (ps : List Piece) (c : ℕ) (text : List ℕ)
    → ((u : List ℕ) → here u ≡ true → Matches ps u)
    → matchstar here c text ≡ true
    → Matches (many c ∷ ps) text
unfolding matchstar
matchstar_finds here ps c [] h e = stop (h [] e)
matchstar_finds here ps c (t ∷ ts) h e = elim (Bool-cases (here (t ∷ ts))) [
  | inl now ↦ stop (h (t ∷ ts) now)
  | inr later ↦
      let fits : Fits c t = ground (arith, e, later) in
      let rest : matchstar here c ts ≡ true = ground (arith, e, later) in
      again fits (matchstar_finds here ps c ts h rest)
]

matchstar_complete :
    (here : List ℕ → Bool) (ps : List Piece) (c : ℕ) (text : List ℕ)
    → ((u : List ℕ) → Matches ps u → here u ≡ true)
    → Matches (many c ∷ ps) text
    → matchstar here c text ≡ true
unfolding matchstar
matchstar_complete here ps c [] h (stop m) = h [] m
matchstar_complete here ps c (t ∷ ts) h (stop m) = rw (h (t ∷ ts) m) refl
matchstar_complete here ps c (t ∷ ts) h (again f m) =
    let rest : matchstar here c ts ≡ true = matchstar_complete here ps c ts h m in
    ground (arith, rest, f)

match_char_finds :
    (here : List ℕ → Bool) (ps : List Piece) (c : ℕ) (text : List ℕ)
    → ((u : List ℕ) → here u ≡ true → Matches ps u)
    → match_char here c text ≡ true
    → Matches (one c ∷ ps) text
unfolding match_char
match_char_finds here ps c [] h e = ground (arith, e)
match_char_finds here ps c (t ∷ ts) h e =
    let fits : Fits c t = ground (arith, e) in
    let rest : here ts ≡ true = ground (arith, e) in char fits (h ts rest)

match_char_complete :
    (here : List ℕ → Bool) (ps : List Piece) (c : ℕ) (text : List ℕ)
    → ((u : List ℕ) → Matches ps u → here u ≡ true)
    → Matches (one c ∷ ps) text
    → match_char here c text ≡ true
unfolding match_char
match_char_complete here ps c [] h m = elim m [ ]
match_char_complete here ps c (t ∷ ts) h (char f m) = let rest = h ts m in ground (arith, rest, f)

matchhere_finds : (re text : List ℕ) → matchhere re text ≡ true → Matches (pieces re) text
unfolding matchhere pieces
matchhere_finds [] text e = nothing_left
matchhere_finds (c ∷ []) text e = elim (Bool-cases (c == dollar)) [
  | inl y ↦ rw y (at_end text (sym (rw y refl) ∙ e))
  | inr n ↦
      rw n (match_char_finds (λ ts. true) [] c text (λ u h. nothing_left) (sym (rw n refl) ∙ e))
]
  where
    at_end : (u : List ℕ) → is_end u ≡ true → Matches (the_end ∷ []) u
    at_end [] h = end_of_text
    at_end (t ∷ ts) h = ground (arith, h)
matchhere_finds (c ∷ d ∷ re) text e = elim (Bool-cases (d == star)) [
  | inl y ↦
      rw y (
        matchstar_finds (matchhere re) (pieces re) c text (matchhere_finds re)
          (sym (rw y refl) ∙ e))
  | inr n ↦ rw n (
      match_char_finds (matchhere (d ∷ re)) (pieces (d ∷ re)) c text (matchhere_finds (d ∷ re))
        (sym (rw n refl) ∙ e))
]

matchhere_complete : (re text : List ℕ) → Matches (pieces re) text → matchhere re text ≡ true
unfolding matchhere pieces
matchhere_complete [] text m = refl
matchhere_complete (c ∷ []) text m = elim (Bool-cases (c == dollar)) [
  | inl y ↦ rw y (at_end text (rw y at m))
  | inr n ↦ rw n (match_char_complete (λ ts. true) [] c text (λ u h. refl) (rw n at m))
]
  where
    at_end : (u : List ℕ) → Matches (the_end ∷ []) u → is_end u ≡ true
    at_end [] h = refl
    at_end (t ∷ ts) h = elim h [ ]
matchhere_complete (c ∷ d ∷ re) text m = elim (Bool-cases (d == star)) [
  | inl y ↦
      rw y
        (matchstar_complete (matchhere re) (pieces re) c text (matchhere_complete re) (rw y at m))
  | inr n ↦ rw n (
      match_char_complete (matchhere (d ∷ re)) (pieces (d ∷ re)) c text
        (matchhere_complete (d ∷ re)) (rw n at m))
]

-- The expression describes the text from some place on, from its start if it begins with `^`.
abbrev pub Somewhere : List Piece → List ℕ → Type 0
Somewhere ps text = (before after : List ℕ) × (text ≡ before ++ after) × Matches ps after

abbrev pub Accepts : List ℕ → List ℕ → Type 0
Accepts [] text = Somewhere [] text
Accepts (c ∷ re) text =
    if c == caret then Matches (pieces re) text else Somewhere (pieces (c ∷ re)) text

search_finds : (re text : List ℕ) → search re text ≡ true → Somewhere (pieces re) text
unfolding search
search_finds re [] e = ([], [], refl, matchhere_finds re [] e)
search_finds re (t ∷ ts) e = elim (Bool-cases (matchhere re (t ∷ ts))) [
  | inl now ↦ ([], t ∷ ts, refl, matchhere_finds re (t ∷ ts) now)
  | inr later ↦
      let rest : search re ts ≡ true = ground (arith, e, later) in
      let (before, after, q, m) = search_finds re ts rest in
      (t ∷ before, after, ap (λ l. t ∷ l) q, m)
]

search_complete :
    (re before after : List ℕ) → Matches (pieces re) after → search re (before ++ after) ≡ true
unfolding search
search_complete re [] [] m = matchhere_complete re [] m
search_complete re [] (t ∷ ts) m = rw (matchhere_complete re (t ∷ ts) m) refl
search_complete re (b ∷ before) after m =
    let rest : search re (before ++ after) ≡ true = search_complete re before after m in
    ground (arith, rest)

search-true : (re text : List ℕ) → search re text ≡ true ↔ Somewhere (pieces re) text
search-true re text =
    (search_finds re text, λ (before, after, q, m). rw q (search_complete re before after m))

-- `match` finds the expression in a text exactly when the expression accepts the text: when its pieces describe the text from some place on, or from its start if it begins with `^`.
pub match_text-Accepts : (re text : List ℕ) → match_text re text ≡ true ↔ Accepts re text
unfolding match_text pieces
match_text-Accepts [] text = search-true [] text
match_text-Accepts (c ∷ re) text = elim (Bool-cases (c == caret)) [
  | inl y ↦ rw y (matchhere_finds re text, matchhere_complete re text)
  | inr n ↦ rw n (search-true (c ∷ re) text)
]
