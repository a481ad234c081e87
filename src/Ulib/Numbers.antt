-- ===== src/Ulib/Numbers.antt =====
-- `atoi` (ulib.c) reads what `printint` (printf.c) writes.
use zv.Prelude.{
  ℕ, zero, suc, ◌+◌, ◌-◌, ◌*◌, ◌/◌, ◌%◌, ◌<◌, ◌≤◌, ◌≡◌, ◌≢◌, refl, ap, ◌∙◌, arith, true, false,
  ◌&&◌, ◌==◌, ltb, leb, if◌then◌else◌, dec_lt, some, none, List, [], ◌∷◌, ◌++◌, ℕ_discrete,
}
use zv.Ulib.{digit, digits_loop, printint, atoi_loop, atoi}

-- 10 ^ n.
abbrev tens : ℕ → ℕ
tens zero = 1
tens (suc n) = 10 * tens n

-- The text does not go on with a digit.
abbrev pub Ends : List ℕ → Type 0
Ends [] = Unit {0}
Ends (c ∷ cs) = (leb b'0' c && leb c b'9') ≡ false

-- One digit is read.
atoi_loop-digit :
    (n d : ℕ) (cs : List ℕ)
    → d < 10
    → n * 10 + d + 48 < 2147483648
    → atoi_loop n (digit d ∷ cs) ≡ atoi_loop (n * 10 + d) cs
unfolding atoi_loop
atoi_loop-digit n d cs small fits =
    let value : n * 10 + digit d - b'0' ≡ n * 10 + d = ground arith in
    let isdigit : (leb b'0' (digit d) && leb (digit d) b'9') ≡ true = ground arith in
    let inside : leb 2147483648 (n * 10 + digit d) ≡ false = ground arith in
    rw (isdigit, inside, value) refl

atoi_loop-over :
    (n d : ℕ) (cs : List ℕ)
    → d < 10
    → 2147483648 ≤ n * 10 + d + 48
    → atoi_loop n (digit d ∷ cs) ≡ none
unfolding atoi_loop
atoi_loop-over n d cs small over =
    let isdigit : (leb b'0' (digit d) && leb (digit d) b'9') ≡ true = ground arith in
    let outside : leb 2147483648 (n * 10 + digit d) ≡ true = ground arith in
    rw (isdigit, outside) refl

tens_more : (fuel x : ℕ) → x < tens (suc fuel) → x / 10 ≢ 0 → 0 < fuel
tens_more zero x lt more = absurd (more (omega arith))
tens_more (suc fuel) x lt more = omega arith

-- The digits before the last are written before it.
digits_loop-more :
    (fuel x : ℕ) (buf : List ℕ)
    → x / 10 ≢ 0
    → digits_loop (suc fuel) x 10 buf ≡ digits_loop fuel (x / 10) 10 (digit (x % 10) ∷ buf)
unfolding digits_loop
digits_loop-more fuel x buf more =
    let on : (x / 10 == 0) ≡ false = ground (arith, more) in rw on refl

atoi_loop-digits_loop :
    (fuel x : ℕ) (buf rest : List ℕ)
    → x < tens fuel
    → 0 < fuel
    → x + 48 < 2147483648
    → atoi_loop 0 (digits_loop fuel x 10 buf ++ rest) ≡ atoi_loop x (buf ++ rest)
unfolding digits_loop
atoi_loop-digits_loop zero x buf rest lt pos_fuel fits = absurd (omega arith)
atoi_loop-digits_loop (suc fuel) x buf rest lt pos_fuel fits = elim (ℕ_discrete (x / 10) 0) [
  | yes last ↦
      let stop : (x / 10 == 0) ≡ true = ground (arith, last) in
      let value : 0 * 10 + x % 10 ≡ x = omega arith in
      rw stop (
        atoi_loop-digit 0 (x % 10) (buf ++ rest) (omega arith) (omega arith)
        ∙ ap (λ n. atoi_loop n (buf ++ rest)) value)
  | no more ↦
      let value : x / 10 * 10 + x % 10 ≡ x = omega arith in
      let again : 0 < fuel = tens_more fuel x lt more in
      ap (λ l. atoi_loop 0 (l ++ rest)) (digits_loop-more fuel x buf more)
      ∙ atoi_loop-digits_loop fuel (x / 10) (digit (x % 10) ∷ buf) rest (omega arith) again
          (omega arith)
      ∙ atoi_loop-digit (x / 10) (x % 10) (buf ++ rest) (omega arith) (omega arith)
      ∙ ap (λ n. atoi_loop n (buf ++ rest)) value
]

atoi_loop-Ends : (x : ℕ) (rest : List ℕ) → Ends rest → atoi_loop x rest ≡ some x
unfolding atoi_loop
atoi_loop-Ends x [] e = refl
atoi_loop-Ends x (c ∷ cs) e = rw e refl

-- The last digit of a number near the largest int.
atoi_loop-last :
    (n : ℕ) (rest : List ℕ)
    → n < 2147483648
    → 2147483648 ≤ n + 48
    → atoi_loop 0 (digits_loop 16 n 10 [] ++ rest) ≡ none
atoi_loop-last n rest lt over =
    let more : n / 10 ≢ 0 = λ e. omega (arith, e) in
    ap (λ l. atoi_loop 0 (l ++ rest)) (digits_loop-more 15 n [] more)
    ∙ atoi_loop-digits_loop 15 (n / 10) (digit (n % 10) ∷ []) rest (omega arith) (omega arith)
        (omega arith)
    ∙ atoi_loop-over (n / 10) (n % 10) rest (omega arith) (omega arith)

-- `atoi` of what `printint` prints in decimal for an int that is not negative, and text that does not go on with a digit, is that int, if it is below 2^31 - 48; for the 48 larger ones `n*10 + *s` overflows an int, though the value does not.
pub atoi-printint :
    (n : ℕ) (rest : List ℕ)
    → n < 2147483648
    → Ends rest
    → atoi (printint n 10 true ++ rest) ≡ (if ltb (n + 48) 2147483648 then some n else none)
unfolding atoi printint
atoi-printint n rest lt ends =
    let positive : leb 2147483648 n ≡ false = ground arith in
    elim (dec_lt (n + 48) 2147483648) [
      | yes low ↦
          let test : ltb (n + 48) 2147483648 ≡ true = ground (arith, low) in
          let value : atoi_loop 0 (digits_loop 16 n 10 [] ++ rest) ≡ some n =
            atoi_loop-digits_loop 16 n [] rest (omega arith) (omega arith) (omega arith)
            ∙ atoi_loop-Ends n rest ends in
          rw (positive, test, value) refl
      | no high ↦
          let test : ltb (n + 48) 2147483648 ≡ false = ground (arith, high) in
          let value : atoi_loop 0 (digits_loop 16 n 10 [] ++ rest) ≡ none =
            atoi_loop-last n rest lt (omega arith) in
          rw (positive, test, value) refl
    ]
