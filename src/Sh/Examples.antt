-- ===== src/Sh/Examples.antt =====
-- Lines of the shell.
use zv.Prelude.{ℕ, ◌≡◌, refl, arith, List, [], ◌∷◌, ok, panic}
use zv.Sh.{exec, redir, sequence, back, parsecmd}
use zv.Sh.Pipelines.{print_pipeline, pipeline, parsecmd-print_pipeline}
use zv.Sh.Total.{Done, Fits, parsecmd-Fits}

-- "ls a " and "wc ".
abbrev ls : List (List ℕ)
ls = (b'l' ∷ b's' ∷ []) ∷ (b'a' ∷ []) ∷ []

abbrev wc : List (List ℕ)
wc = (b'w' ∷ b'c' ∷ []) ∷ []

parsecmd-print_pipeline_example :
    parsecmd (print_pipeline ls (wc ∷ [])) ≡ ok (pipeline ls (wc ∷ []))
parsecmd-print_pipeline_example =
    parsecmd-print_pipeline ls (wc ∷ [])
      ((((refl, refl), ((refl, refl), tt)), (((refl, refl), tt), tt)), omega arith)
      (((((refl, refl), ((refl, refl), tt)), tt), omega arith), tt)

-- "(a;b>>c)&"
abbrev line : List ℕ
line = b'(' ∷ b'a' ∷ b';' ∷ b'b' ∷ b'>' ∷ b'>' ∷ b'c' ∷ b')' ∷ b'&' ∷ []

parsecmd-Fits_example : Done Fits (parsecmd line)
parsecmd-Fits_example = parsecmd-Fits line

block :
    parsecmd line
    ≡ ok (
        back
          (sequence (exec ((b'a' ∷ []) ∷ [])) (redir (exec ((b'b' ∷ []) ∷ [])) (b'c' ∷ []) 513 1)))
unfolding parsecmd
block = refl

-- "(a" has no end.
unclosed : parsecmd (b'(' ∷ b'a' ∷ []) ≡ panic "syntax - missing )"
unfolding parsecmd
unclosed = refl
