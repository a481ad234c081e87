-- ===== src/Ulib/Lines.antt =====
-- `gets`, `strcmp` and `strchr` (ulib.c).
use zv.Prelude.{
  ℕ, zero, suc, ◌-◌, ◌≤◌, ◌<◌, ◌≡◌, ◌≢◌, ◌↔◌, refl, ap, inl, inr, arith, ◌||◌, ◌==◌, Bool-cases,
  List, [], ◌∷◌, ◌++◌, length, pos, sub_ℕ-zero, ◌⊎◌,
}
use zv.Ulib.{strcmp, gets_loop, gets}

-- No byte of a string is NUL.
abbrev pub IsText : List ℕ → Type 0
IsText [] = Unit {0}
IsText (c ∷ cs) = (c ≢ 0) × IsText cs

-- `strcmp` of two strings, whose bytes are not NUL, returns 0 exactly if they are equal.
pub strcmp-zero : (p q : List ℕ) → IsText p → IsText q → strcmp p q ≡ pos 0 ↔ p ≡ q
unfolding strcmp
strcmp-zero [] [] tp tq = ((λ _. refl), λ _. refl)
strcmp-zero [] (d ∷ q) tp (nz, tq) =
    let ends = sub_ℕ-zero 0 d in (λ e. ground (arith, nz, ends.0 e), λ e. ground (arith, e))
strcmp-zero (c ∷ p) [] (nz, tp) tq =
    let ends = sub_ℕ-zero c 0 in (λ e. ground (arith, nz, ends.0 e), λ e. ground (arith, e))
strcmp-zero (c ∷ p) (d ∷ q) (nz, tp) (nz', tq) =
    let rest = strcmp-zero p q tp tq in
    let ends = sub_ℕ-zero c d in
    (λ e. ground (arith, rest.0, ends.0, e), λ e. ground (arith, rest.1, ends.1, e))

-- No byte of it is a newline or a return.
abbrev pub NoEnd : List ℕ → Type 0
NoEnd [] = Unit {0}
NoEnd (c ∷ cs) = (c ≢ b'\n') × (c ≢ b'\r') × NoEnd cs

-- Without a newline or a return the line ends the input or is as long as there is room for; otherwise
-- its first newline or return is its last byte.
pub data Line (k : ℕ) : List ℕ → List ℕ → Type 0 where
  end_of_input : {l : List ℕ} → NoEnd l → Line k l []
  full : {l r : List ℕ} → NoEnd l → length l ≡ k → Line k l r
  ended :
      (a : List ℕ) {l r : List ℕ} {c : ℕ}
      → NoEnd a
      → l ≡ a ++ (c ∷ [])
      → (c ≡ b'\n') ⊎ (c ≡ b'\r')
      → Line k l r

Line-suc : (k c : ℕ) (l r : List ℕ) → c ≢ b'\n' → c ≢ b'\r' → Line k l r → Line (suc k) (c ∷ l) r
Line-suc k c l r n m (end_of_input plain) = end_of_input (n, m, plain)
Line-suc k c l r n m (full plain e) = full (n, m, plain) (ap suc e)
Line-suc k c l r n m (ended a plain e h) = ended (c ∷ a) (n, m, plain) (ap (λ x. c ∷ x) e) h

gets_loop_lem :
    (k : ℕ) (input : List ℕ)
    → ((gets_loop k input).0 ++ (gets_loop k input).1 ≡ input)
      × (length (gets_loop k input).0 ≤ k)
      × Line k (gets_loop k input).0 (gets_loop k input).1
unfolding gets_loop
gets_loop_lem zero input = (refl, omega arith, full tt refl)
gets_loop_lem (suc k) [] = (refl, omega arith, end_of_input tt)
gets_loop_lem (suc k) (c ∷ input) = elim (Bool-cases (c == b'\n' || c == b'\r')) [
  | inl stop ↦ rw stop (refl, omega arith, ended [] tt refl (ground (arith, stop)))
  | inr more ↦
      let (e, le, line) = gets_loop_lem k input in
      rw more (
        ap (λ x. c ∷ x) e,
        omega (arith, le),
        Line-suc k c (gets_loop k input).0 (gets_loop k input).1 (ground (arith, more))
            (ground (arith, more)) line,
      )
]

-- `gets` with a buffer of `max` bytes takes a first part of the input, which leaves room for its NUL, and leaves the rest: it stops behind the first newline or return; where there is none, at the end of the input, or where only the NUL has room.
pub gets_lem :
    (max : ℕ) (input : List ℕ)
    → 0 < max
    → ((gets max input).0 ++ (gets max input).1 ≡ input)
      × (length (gets max input).0 < max)
      × Line (max - 1) (gets max input).0 (gets max input).1
unfolding gets
gets_lem max input more =
    let (e, le, line) = gets_loop_lem (max - 1) input in (e, omega arith, line)
