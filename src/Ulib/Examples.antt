-- ===== src/Ulib/Examples.antt =====
-- Runs of ulib.c and printf.c.
use zv.Prelude.{
  ◌↔◌, pos, ℕ, ◌+◌, ◌<◌, ◌-◌, ◌≡◌, refl, arith, true, List, [], ◌∷◌, ◌++◌, length, ltb,
  if◌then◌else◌, some, none,
}
use zv.Ulib.{strcmp, digits_loop, printint, atoi, gets, convert, printf}
use zv.Ulib.Numbers.{atoi-printint}
use zv.Ulib.Lines.{Line, gets_lem, strcmp-zero}

atoi_example :
    atoi (printint 1024 10 true ++ (32 ∷ []))
    ≡ (if ltb (1024 + 48) 2147483648 then some 1024 else none)
atoi_example = atoi-printint 1024 (32 ∷ []) (omega arith) refl

-- "%d%%" of 42.
prints : printf (λ p. []) (b'%' ∷ b'd' ∷ b'%' ∷ b'%' ∷ []) (42 ∷ []) ≡ b'4' ∷ b'2' ∷ b'%' ∷ []
unfolding printf convert printint digits_loop
prints = refl

abbrev two_lines : List ℕ
two_lines = 97 ∷ 10 ∷ 98 ∷ 10 ∷ []

gets_example :
    ((gets 100 two_lines).0 ++ (gets 100 two_lines).1 ≡ two_lines)
    × (length (gets 100 two_lines).0 < 100)
    × Line (100 - 1) (gets 100 two_lines).0 (gets 100 two_lines).1
gets_example = gets_lem 100 two_lines (omega arith)

abbrev ab : List ℕ
ab = b'a' ∷ b'b' ∷ []

abbrev ac : List ℕ
ac = b'a' ∷ b'c' ∷ []

strcmp_example : strcmp ab ac ≡ pos 0 ↔ ab ≡ ac
strcmp_example =
    strcmp-zero ab ac (λ e. omega arith, (λ e. omega arith, tt))
      (λ e. omega arith, (λ e. omega arith, tt))
