-- ===== src/Sh/Lengths.antt =====
-- What the tokens of sh.c leave of the text.
use zv.Prelude.{
  ℕ, suc, ◌≤◌, ◌<◌, ◌≡◌, refl, ap, inl, inr, arith, true, false, ◌==◌, Bool-cases, List, [], ◌∷◌,
  length,
}
use zv.Sh.{is_space, skip_spaces, word, tail_of, token, gettoken, first_in}

-- What is left behind the spaces.
pub data Trimmed (n : ℕ) : List ℕ → Type 0 where
  empty : Trimmed n []
  starts : {c : ℕ} {t : List ℕ} → is_space c ≡ false → length t < n → Trimmed n (c ∷ t)

Trimmed-suc : {n : ℕ} {s : List ℕ} → Trimmed n s → Trimmed (suc n) s
Trimmed-suc empty = empty
Trimmed-suc (starts e lt) = starts e (omega (arith, lt))

skip_spaces-Trimmed : (s : List ℕ) → Trimmed (length s) (skip_spaces s)
unfolding skip_spaces
skip_spaces-Trimmed [] = empty
skip_spaces-Trimmed (c ∷ s) = elim (Bool-cases (is_space c)) [
  | inl e ↦ rw e (Trimmed-suc (skip_spaces-Trimmed s))
  | inr e ↦ rw e (starts e (omega arith))
]

pub length-skip_spaces : (s : List ℕ) → length (skip_spaces s) ≤ length s
unfolding skip_spaces
length-skip_spaces [] = omega arith
length-skip_spaces (c ∷ s) = ground (arith, length-skip_spaces s)

length-word : (s : List ℕ) → length (word s).1 ≤ length s
unfolding word
length-word [] = omega arith
length-word (c ∷ s) = ground (arith, length-word s)

length-tail_of : (s : List ℕ) → length (tail_of s) ≤ length s
length-tail_of [] = omega arith
length-tail_of (c ∷ s) = omega arith

-- The first byte of a token is read.
length-token : (c : ℕ) (s : List ℕ) → is_space c ≡ false → length (token (c ∷ s)).rest ≤ length s
unfolding token word
length-token c s space =
    let plain = length-skip_spaces s in
    let tail = length-skip_spaces (tail_of s) in
    let tail' = length-tail_of s in
    let from_word = length-skip_spaces (word s).1 in let from_word' = length-word s in ground arith

skip_spaces_again : {n : ℕ} {t : List ℕ} → Trimmed n t → skip_spaces t ≡ t
unfolding skip_spaces
skip_spaces_again empty = refl
skip_spaces_again (starts space lt) = rw space refl

token_rest : {n : ℕ} {t : List ℕ} → Trimmed n t → length (token t).rest ≤ n
unfolding token
token_rest empty = omega arith
token_rest (starts {c} {t} space lt) = omega (arith, length-token c t space, lt)

token_shorter :
    {n : ℕ} {t : List ℕ} → Trimmed n t → ((token t).ret == 0) ≡ false → length (token t).rest < n
unfolding token
token_shorter empty e = cc
token_shorter (starts {c} {t} space lt) e = omega (arith, length-token c t space, lt)

first_in_shorter :
    {n : ℕ} {t : List ℕ} (toks : List ℕ)
    → Trimmed n t
    → first_in toks t ≡ true
    → length (token t).rest < n
first_in_shorter toks empty e = cc
first_in_shorter toks (starts {c} {t} space lt) e = omega (arith, length-token c t space, lt)

pub length-gettoken : (s : List ℕ) → length (gettoken s).rest ≤ length s
unfolding gettoken
length-gettoken s = token_rest (skip_spaces-Trimmed s)

gettoken_again : (s : List ℕ) → gettoken (skip_spaces s) ≡ token (skip_spaces s)
unfolding gettoken
gettoken_again s = ap token (skip_spaces_again (skip_spaces-Trimmed s))

-- Behind a `peek`, a token that is not the end takes something.
pub gettoken_shorter :
    (s : List ℕ)
    → ((gettoken (skip_spaces s)).ret == 0) ≡ false
    → length (gettoken (skip_spaces s)).rest < length s
gettoken_shorter s = rw (gettoken_again s) (token_shorter (skip_spaces-Trimmed s))

pub peek_shorter :
    (toks s : List ℕ)
    → first_in toks (skip_spaces s) ≡ true
    → length (gettoken (skip_spaces s)).rest < length s
peek_shorter toks s e = rw (gettoken_again s) (first_in_shorter toks (skip_spaces-Trimmed s) e)
