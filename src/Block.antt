-- ===== src/Block.antt =====
-- A disk block of BSIZE bytes (fs.h), as a function from a byte's offset to the byte, and the
-- little-endian 32-bit words that log.c and fs.c read in it through pointers of type uint*.
use zv.Prelude.{ℕ, ◌+◌, ◌*◌, ◌/◌, ◌%◌, ◌<◌, ◌≡◌, ◌≢◌, refl, arith, ◌==◌, ==_iff, if◌then◌else◌}
use native.Mathlib.Nat.{add-zero}

abbrev pub Block : Type 0
Block = ℕ → ℕ

abbrev pub block_size : ℕ
block_size = 512

-- `((uint*)b)[i]`.
unfoldable pub get_word : Block → ℕ → ℕ
get_word b i = b (4 * i) + 256 * b (4 * i + 1) + 65536 * b (4 * i + 2) + 16777216 * b (4 * i + 3)

-- The byte at offset `k` of the word `v`.
unfoldable pub byte_of : ℕ → ℕ → ℕ
byte_of v k =
    if k == 0
    then v % 256
    else if k == 1
    then v / 256 % 256
    else if k == 2
    then v / 65536 % 256
    else v / 16777216 % 256

-- `((uint*)b)[i] = v`.
unfoldable pub set_word : Block → ℕ → ℕ → Block
set_word b i v j = if j / 4 == i then byte_of v (j % 4) else b j

module _ (b : Block) (i v : ℕ) where
  set_word_byte : (k : ℕ) → k < 4 → set_word b i v (4 * i + k) ≡ byte_of v k
  unfolding set_word
  set_word_byte k h =
      let q : (4 * i + k) / 4 ≡ i = omega arith in
      let r : (4 * i + k) % 4 ≡ k = omega arith in rw (q, r, (==_iff i i).1 refl)

  set_word_byte_zero : set_word b i v (4 * i) ≡ byte_of v 0
  set_word_byte_zero = rw (← add-zero (4 * i)) (set_word_byte 0 (omega arith))

pub byte_of_sum :
    (v : ℕ)
    → v < 4294967296
    → byte_of v 0 + 256 * byte_of v 1 + 65536 * byte_of v 2 + 16777216 * byte_of v 3 ≡ v
unfolding byte_of
byte_of_sum v h = omega arith

pub get_word-set_word_self :
    (b : Block) (i v : ℕ) → v < 4294967296 → get_word (set_word b i v) i ≡ v
unfolding get_word
get_word-set_word_self b i v h =
    rw
      (
        set_word_byte_zero b i v,
        set_word_byte b i v 1 (omega arith),
        set_word_byte b i v 2 (omega arith),
        set_word_byte b i v 3 (omega arith),
      )
      (byte_of_sum v h)

set_word_other :
    (b : Block) (i j k v : ℕ) → i ≢ j → k < 4 → set_word b i v (4 * j + k) ≡ b (4 * j + k)
unfolding set_word
set_word_other b i j k v h lt = let q : (4 * j + k) / 4 ≡ j = omega arith in rw q (ground arith)

set_word_other_zero : (b : Block) (i j v : ℕ) → i ≢ j → set_word b i v (4 * j) ≡ b (4 * j)
unfolding set_word
set_word_other_zero b i j v h = let q : 4 * j / 4 ≡ j = omega arith in rw q (ground arith)

pub get_word-set_word_ne :
    (b : Block) (i j v : ℕ) → i ≢ j → get_word (set_word b i v) j ≡ get_word b j
unfolding get_word
get_word-set_word_ne b i j v h = rw (
  set_word_other_zero b i j v h,
  set_word_other b i j 1 v h (omega arith),
  set_word_other b i j 2 v h (omega arith),
  set_word_other b i j 3 v h (omega arith),
)
