-- ===== src/Sh/Words.antt =====
-- The parser of sh.c on the words of a simple command.
use zv.Prelude.{
  ℕ, zero, suc, ◌+◌, ◌<◌, ◌≡◌, refl, ap, ◌∙◌, arith, false, ◌||◌, ◌==◌, leb, List, [], ◌∷◌, ◌++◌,
  length, length-append, ok, ◌>>=◌,
}
use mathlib.Core.List.{append_assoc, append-nil}
use zv.Sh.{
  max_args, Parsed, exec, is_space, is_symbol, skip_spaces, word, Token, token, gettoken, holds,
  first_in, peek, Wrap, parseredirs, parseargs, parseexec,
}

-- A byte of a word.
abbrev pub IsChar : ℕ → Type 0
IsChar c = (is_space c ≡ false) × (is_symbol c ≡ false)

abbrev pub AllChars : List ℕ → Type 0
AllChars [] = Unit {0}
AllChars (c ∷ w) = IsChar c × AllChars w

abbrev pub IsWord : List ℕ → Type 0
IsWord [] = ⊥
IsWord (c ∷ w) = IsChar c × AllChars w

abbrev pub AllWords : List (List ℕ) → Type 0
AllWords [] = Unit {0}
AllWords (w ∷ ws) = IsWord w × AllWords ws

-- A blank follows each word.
unfoldable pub print_words : List (List ℕ) → List ℕ → List ℕ
print_words [] t = t
print_words (w ∷ ws) t = w ++ (b' ' ∷ print_words ws t)

-- What may follow a command: nothing, or a `|`.
pub data Stop : List ℕ → Type 0 where
  nothing : Stop []
  bar : {s : List ℕ} → Stop (b'|' ∷ s)

word_lem : (w s : List ℕ) → AllChars w → word (w ++ (b' ' ∷ s)) ≡ (w, b' ' ∷ s)
unfolding word
word_lem [] s all = refl
word_lem (c ∷ w) s ((space, symbol), all) = rw (space, symbol, word_lem w s all) refl

token_char :
    (c : ℕ) (s : List ℕ)
    → is_symbol c ≡ false
    → token (c ∷ s)
      ≡ record { ret = b'a'; text = (word (c ∷ s)).0; rest = skip_spaces (word (c ∷ s)).1 }
unfolding token
token_char c s symbol =
    let plain : (c == b'|' || c == b'(' || c == b')' || c == b';' || c == b'&' || c == b'<')
        ≡ false =
      ground (arith, symbol) in
    let no_gt : (c == b'>') ≡ false = ground (arith, symbol) in rw (plain, no_gt) refl

first_trimmed : (c : ℕ) (s : List ℕ) → is_space c ≡ false → skip_spaces (c ∷ s) ≡ c ∷ s
unfolding skip_spaces
first_trimmed c s space = rw space refl

gettoken_word :
    (w s : List ℕ)
    → IsWord w
    → gettoken (w ++ (b' ' ∷ s)) ≡ record { ret = b'a'; text = w; rest = skip_spaces s }
unfolding gettoken skip_spaces
gettoken_word (c ∷ w) s ((space, symbol), all) =
    ap token (first_trimmed c (w ++ (b' ' ∷ s)) space)
    ∙ token_char c (w ++ (b' ' ∷ s)) symbol
    ∙ ap (λ (p : List ℕ × List ℕ). record { ret = b'a'; text = p.0; rest = skip_spaces p.1 })
        (word_lem (c ∷ w) s ((space, symbol), all))
gettoken_word [] s h = elim h [ ]

-- Where a command or its end begins.
pub record Begins (s : List ℕ) : Type 0 where
  pub trimmed : skip_spaces s ≡ s
  pub no_redir : first_in (b'<' ∷ b'>' ∷ []) s ≡ false
  pub no_block : first_in (b'(' ∷ []) s ≡ false

Stop-Begins : (t : List ℕ) → Stop t → Begins t
unfolding skip_spaces
Stop-Begins [] nothing = record { trimmed = refl; no_redir = refl; no_block = refl }
Stop-Begins (c ∷ s) bar = record { trimmed = refl; no_redir = refl; no_block = refl }

pub print_words-Begins :
    (ws : List (List ℕ)) (t : List ℕ) → AllWords ws → Stop t → Begins (print_words ws t)
unfolding print_words skip_spaces
print_words-Begins [] t all stop = Stop-Begins t stop
print_words-Begins ([] ∷ ws) t (h, all) stop = elim h [ ]
print_words-Begins ((c ∷ w) ∷ ws) t (((space, symbol), chars), all) stop = record {
  trimmed = rw space refl;
  no_redir = ground (arith, symbol);
  no_block = ground (arith, symbol);
}

parseredirs_none :
    (fuel : ℕ) (wrap : Wrap) (s : List ℕ) → Begins s → parseredirs (suc fuel) wrap s ≡ ok (wrap, s)
unfolding parseredirs peek
parseredirs_none fuel wrap s g = rw (g.trimmed, g.no_redir) refl

-- One step of the loop, on a word that `gettoken` gives.
parseargs_step :
    (fuel : ℕ) (argv : List (List ℕ)) (s : List ℕ) (tok : Token)
    → first_in (b'|' ∷ b')' ∷ b'&' ∷ b';' ∷ []) (skip_spaces s) ≡ false
    → gettoken (skip_spaces s) ≡ tok
    → tok.ret ≡ b'a'
    → length argv + 1 < max_args
    → Begins tok.rest
    → parseargs (suc (suc fuel)) argv (λ c. c) s
      ≡ parseargs (suc fuel) (argv ++ (tok.text ∷ [])) (λ c. c) tok.rest
unfolding parseargs peek
parseargs_step fuel argv s tok go_on read ret few g =
    let room : leb max_args (length (argv ++ (tok.text ∷ []))) ≡ false =
      ground (arith, length-append argv (tok.text ∷ [])) in
    rw (go_on, read, ret, room, parseredirs_none fuel (λ x. x) tok.rest g, ◌>>=◌) refl

-- One word is read.
parseargs_word :
    (fuel : ℕ) (argv : List (List ℕ)) (w s : List ℕ)
    → IsWord w
    → Begins s
    → length argv + 1 < max_args
    → parseargs (suc (suc fuel)) argv (λ c. c) (w ++ (b' ' ∷ s))
      ≡ parseargs (suc fuel) (argv ++ (w ∷ [])) (λ c. c) s
parseargs_word fuel argv [] s h g few = elim h [ ]
parseargs_word fuel argv (c ∷ w) s isword g few =
    let text : List ℕ = c ∷ (w ++ (b' ' ∷ s)) in
    let trimmed : skip_spaces text ≡ text = first_trimmed c (w ++ (b' ' ∷ s)) isword.0.0 in
    let go_on : holds c (b'|' ∷ b')' ∷ b'&' ∷ b';' ∷ []) ≡ false = ground (arith, isword.0.1) in
    parseargs_step fuel argv text (record { ret = b'a'; text = c ∷ w; rest = s })
      (ap (first_in (b'|' ∷ b')' ∷ b'&' ∷ b';' ∷ [])) trimmed ∙ go_on)
      (ap gettoken trimmed
        ∙ gettoken_word (c ∷ w) s isword
        ∙ ap (λ (r : List ℕ). record { ret = b'a'; text = c ∷ w; rest = r }) g.trimmed)
      refl few g

parseargs_lem :
    (fuel : ℕ) (argv ws : List (List ℕ)) (t : List ℕ)
    → AllWords ws
    → Stop t
    → length argv + length ws < max_args
    → length ws < fuel
    → parseargs fuel argv (λ c. c) (print_words ws t) ≡ ok (exec (argv ++ ws), t)
unfolding parseargs peek print_words gettoken token skip_spaces
parseargs_lem zero argv ws t all stop few enough = ground arith
parseargs_lem (suc fuel) argv [] t all stop few enough = at_end t stop
  where
    at_end :
        (t : List ℕ) → Stop t → parseargs (suc fuel) argv (λ c. c) t ≡ ok (exec (argv ++ []), t)
    at_end [] nothing = rw (append-nil argv) refl
    at_end (c ∷ s) bar = rw (append-nil argv) refl
parseargs_lem (suc zero) argv (w ∷ ws) t all stop few enough = ground arith
parseargs_lem (suc (suc fuel)) argv (w ∷ ws) t (isword, all) stop few enough =
    parseargs_word fuel argv w (print_words ws t) isword (print_words-Begins ws t all stop)
      (omega arith)
    ∙ parseargs_lem (suc fuel) (argv ++ (w ∷ [])) ws t all stop
        (omega (arith, length-append argv (w ∷ []))) (omega arith)
    ∙ ap (λ x. ok (exec x, t)) (append_assoc argv (w ∷ []) ws)

parseexec_plain :
    (line : List ℕ → Parsed) (fuel : ℕ) (s trimmed : List ℕ)
    → skip_spaces s ≡ trimmed
    → first_in (b'(' ∷ []) trimmed ≡ false
    → parseredirs fuel (λ c. c) trimmed ≡ ok (λ c. c, trimmed)
    → parseexec line fuel s ≡ parseargs fuel [] (λ c. c) trimmed
unfolding parseexec peek
parseexec_plain line fuel s trimmed e no_block none = rw (e, no_block, none) refl

pub parseexec_lem :
    (line : List ℕ → Parsed) (fuel : ℕ) (ws : List (List ℕ)) (t : List ℕ)
    → AllWords ws
    → Stop t
    → length ws < max_args
    → length ws < suc fuel
    → parseexec line (suc fuel) (print_words ws t) ≡ ok (exec ws, t)
parseexec_lem line fuel ws t all stop few enough =
    let g = print_words-Begins ws t all stop in
    let s = print_words ws t in
    parseexec_plain line (suc fuel) s s g.trimmed g.no_block (parseredirs_none fuel (λ c. c) s g)
    ∙ parseargs_lem (suc fuel) [] ws t all stop (omega arith) enough
