-- ===== src/Strings/Moves.antt =====
-- `memset` and `memmove` (string.c) on every byte of the memory, overlapping regions included.
use zv.Prelude.{
  ℕ, zero, suc, ◌+◌, ◌-◌, ◌*◌, ◌/◌, ◌%◌, ◌≤◌, ◌<◌, ◌≡◌, ◌∙◌, inl, inr, Bool, false, ◌&&◌, arith,
  ◌==◌, ltb, leb, if◌then◌else◌, Bool-cases, update, dec_lt, ◌⊎◌,
}
use zv.Block.{byte_of}
use zv.Strings.{Memory, stosb, store_word, stosl, memset, copy_down, copy_up, memmove}

-- A byte of the `n` bytes from `a` on.
abbrev pub within : ℕ → ℕ → ℕ → Bool
within a n x = leb a x && ltb x (a + n)

stosb_lem :
    (dst c n : ℕ) (m : Memory) (x : ℕ)
    → stosb dst c n m x ≡ (if within dst n x then c % 256 else m x)
unfolding stosb
stosb_lem dst c zero m x = ground arith
stosb_lem dst c (suc n) m x = stosb_lem (dst + 1) c n (update m dst (c % 256)) x ∙ ground arith

abbrev word_of : ℕ → ℕ
word_of b = b * 16777216 + b * 65536 + b * 256 + b

byte_of-word_of : (b k : ℕ) → b < 256 → byte_of (word_of b) k ≡ b
unfolding byte_of
byte_of-word_of b k h =
    let b0 : word_of b % 256 ≡ b = omega arith in
    let b1 : word_of b / 256 % 256 ≡ b = omega arith in
    let b2 : word_of b / 65536 % 256 ≡ b = omega arith in
    let b3 : word_of b / 16777216 % 256 ≡ b = omega arith in rw (b0, b1, b2, b3) (ground arith)

store_word_lem :
    (dst b : ℕ) (m : Memory) (x : ℕ)
    → b < 256
    → store_word dst (word_of b) m x ≡ (if within dst 4 x then b else m x)
unfolding store_word
store_word_lem dst b m x h =
    rw (byte_of-word_of b 0 h, byte_of-word_of b 1 h, byte_of-word_of b 2 h, byte_of-word_of b 3 h)
      (ground arith)

stosl_lem :
    (dst b n : ℕ) (m : Memory) (x : ℕ)
    → b < 256
    → stosl dst (word_of b) n m x ≡ (if within dst (4 * n) x then b else m x)
unfolding stosl
stosl_lem dst b zero m x h = ground arith
stosl_lem dst b (suc n) m x h =
    stosl_lem (dst + 4) b n (store_word dst (word_of b) m) x h
    ∙ rw (store_word_lem dst b m x h) (ground arith)

-- `memset` sets exactly the `n` bytes from `dst` on to the low byte of `c`, by words or by bytes.
pub memset_lem :
    (dst c n : ℕ) (m : Memory) (x : ℕ)
    → memset dst c n m x ≡ (if within dst n x then c % 256 else m x)
unfolding memset
memset_lem dst c n m x = elim (Bool-cases (dst % 4 == 0 && n % 4 == 0)) [
  | inr bytes ↦ rw bytes (stosb_lem dst c n m x)
  | inl words ↦
      let whole : 4 * (n / 4) ≡ n = ground arith in
      rw words (stosl_lem dst (c % 256) (n / 4) m x (omega arith) ∙ rw whole)
]

copy_down_lem :
    (dst src n : ℕ) (m : Memory) (x : ℕ)
    → src ≤ dst
    → copy_down dst src n m x ≡ (if within dst n x then m (src + (x - dst)) else m x)
unfolding copy_down
copy_down_lem dst src zero m x h = ground arith
copy_down_lem dst src (suc n) m x h =
    copy_down_lem dst src n (update m (dst + n) (m (src + n))) x h ∙ ground arith

copy_up_lem :
    (dst src n : ℕ) (m : Memory) (x : ℕ)
    → (dst ≤ src) ⊎ (src + n ≤ dst)
    → copy_up dst src n m x ≡ (if within dst n x then m (src + (x - dst)) else m x)
unfolding copy_up
copy_up_lem dst src zero m x h = ground arith
copy_up_lem dst src (suc n) m x h =
    copy_up_lem (dst + 1) (src + 1) n (update m dst (m src)) x (omega arith) ∙ ground arith

apart_cases :
    (dst src n : ℕ) → (ltb src dst && ltb dst (src + n)) ≡ false → (dst ≤ src) ⊎ (src + n ≤ dst)
apart_cases dst src n h = elim (dec_lt src dst) [
  | yes before ↦ inr (ground arith)
  | no after ↦ inl (omega arith)
]

-- `memmove` makes the `n` bytes from `dst` on a copy of what the `n` bytes from `src` on held, also
-- where the two overlap, and changes no other byte.
pub memmove_lem :
    (dst src n : ℕ) (m : Memory) (x : ℕ)
    → memmove dst src n m x ≡ (if within dst n x then m (src + (x - dst)) else m x)
unfolding memmove
memmove_lem dst src n m x = elim (Bool-cases (ltb src dst && ltb dst (src + n))) [
  | inl overlap ↦ rw overlap (copy_down_lem dst src n m x (ground arith))
  | inr apart ↦ rw apart (copy_up_lem dst src n m x (apart_cases dst src n apart))
]
