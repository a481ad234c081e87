-- ===== src/Sh/Pipelines.antt =====
-- The parser of sh.c on pipelines of simple commands.
use zv.Prelude.{
  ℕ, zero, suc, ◌+◌, ◌≤◌, ◌<◌, ◌≡◌, refl, ap, ◌∙◌, arith, List, [], ◌∷◌, length, length-append, ok,
  ◌>>=◌,
}
use zv.Sh.{
  max_args, Cmd, Parsed, exec, pipe, skip_spaces, token, gettoken, peek, parsepipe, parsebacks,
  parseline, parsecmd,
}
use zv.Sh.Words.{AllWords, print_words, nothing, bar, Begins, parseexec_lem, print_words-Begins}

-- A command of fewer words than `exec` has room for.
abbrev pub IsSimple : List (List ℕ) → Type 0
IsSimple ws = AllWords ws × (length ws < max_args)

abbrev pub AllSimple : List (List (List ℕ)) → Type 0
AllSimple [] = Unit {0}
AllSimple (ws ∷ more) = IsSimple ws × AllSimple more

-- A pipeline of simple commands, as text and as a command.
unfoldable pub print_pipeline : List (List ℕ) → List (List (List ℕ)) → List ℕ
print_pipeline ws [] = print_words ws []
print_pipeline ws (vs ∷ more) = print_words ws (b'|' ∷ print_pipeline vs more)

unfoldable pub pipeline : List (List ℕ) → List (List (List ℕ)) → Cmd
pipeline ws [] = exec ws
pipeline ws (vs ∷ more) = pipe (exec ws) (pipeline vs more)

print_pipeline-Begins :
    (ws : List (List ℕ)) (more : List (List (List ℕ)))
    → IsSimple ws
    → Begins (print_pipeline ws more)
unfolding print_pipeline
print_pipeline-Begins ws [] h = print_words-Begins ws [] h.0 nothing
print_pipeline-Begins ws (vs ∷ more) h =
    print_words-Begins ws (b'|' ∷ print_pipeline vs more) h.0 bar

length-print_words :
    (ws : List (List ℕ)) (t : List ℕ) → length ws + length t ≤ length (print_words ws t)
unfolding print_words
length-print_words [] t = omega arith
length-print_words (w ∷ ws) t =
    omega (arith, length-append w (b' ' ∷ print_words ws t), length-print_words ws t)

parsepipe_lem :
    (line : List ℕ → Parsed) (fuel : ℕ) (ws : List (List ℕ)) (more : List (List (List ℕ)))
    → IsSimple ws
    → AllSimple more
    → length (print_pipeline ws more) < fuel
    → parsepipe line fuel (print_pipeline ws more) ≡ ok (pipeline ws more, [])
unfolding parsepipe print_pipeline pipeline peek gettoken token skip_spaces
parsepipe_lem line zero ws more h all enough = ground arith
parsepipe_lem line (suc fuel) ws [] h all enough =
    rw
      (
        parseexec_lem line fuel ws [] h.0 nothing h.1 (omega (arith, length-print_words ws [])),
        ◌>>=◌,
      )
      refl
parsepipe_lem line (suc fuel) ws (vs ∷ more) h (v, all) enough =
    let rest = print_pipeline vs more in
    let short = length-print_words ws (b'|' ∷ rest) in
    rw
      (
        parseexec_lem line fuel ws (b'|' ∷ rest) h.0 bar h.1 (omega arith),
        ◌>>=◌,
        (print_pipeline-Begins vs more v).trimmed,
        parsepipe_lem line fuel vs more v all (omega arith),
      )
      refl

parseline_lem :
    (fuel : ℕ) (ws : List (List ℕ)) (more : List (List (List ℕ)))
    → IsSimple ws
    → AllSimple more
    → length (print_pipeline ws more) < suc fuel
    → parseline (suc fuel) (print_pipeline ws more) ≡ ok (pipeline ws more, [])
unfolding parseline parsebacks peek skip_spaces
parseline_lem fuel ws more h all enough =
    rw (parsepipe_lem (λ t. parseline fuel t) (suc fuel) ws more h all enough, ◌>>=◌) refl

-- `parsecmd` reads the text of a pipeline of simple commands, in which a blank follows each word and a `|`
-- stands between two commands, as the pipe of these commands, in their order and with their arguments, if
-- no word is empty or contains a space or a symbol and each command has fewer than MAXARGS words.
pub parsecmd-print_pipeline :
    (ws : List (List ℕ)) (more : List (List (List ℕ)))
    → IsSimple ws
    → AllSimple more
    → parsecmd (print_pipeline ws more) ≡ ok (pipeline ws more)
unfolding parsecmd peek skip_spaces
parsecmd-print_pipeline ws more h all =
    let s = print_pipeline ws more in
    let fuel : length s + 2 ≡ suc (length s + 1) = omega arith in
    let parsed : parseline (length s + 2) s ≡ ok (pipeline ws more, []) =
      ap (λ n. parseline n s) fuel ∙ parseline_lem (length s + 1) ws more h all (omega arith) in
    rw (parsed, ◌>>=◌) refl
