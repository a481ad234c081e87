-- ===== src/Fs/Bits.antt =====
-- Bits of a byte and of a bitmap block (fs.c): `(bp->data[bi/8] & m) == 0` with `m = 1 << (bi % 8)`,
-- `|= m` and `&= ~m`.
use zv.Prelude.{
  ℕ, zero, suc, ◌+◌, ◌-◌, ◌*◌, ◌/◌, ◌%◌, ◌≡◌, Bool, not, ◌&&◌, ◌||◌, arith, ◌==◌, if◌then◌else◌,
  update,
}
use zv.Block.{Block}

-- `x & (1 << k)`, `x | (1 << k)` and `x & ~(1 << k)`, by the binary digits of `x`.
unfoldable pub has_bit : ℕ → ℕ → Bool
has_bit x zero = x % 2 == 1
has_bit x (suc k) = has_bit (x / 2) k

unfoldable pub or_bit : ℕ → ℕ → ℕ
or_bit x zero = if x % 2 == 1 then x else x + 1
or_bit x (suc k) = x % 2 + 2 * or_bit (x / 2) k

unfoldable pub clear_bit : ℕ → ℕ → ℕ
clear_bit x zero = if x % 2 == 1 then x - 1 else x
clear_bit x (suc k) = x % 2 + 2 * clear_bit (x / 2) k

has_bit-or_bit : (x i j : ℕ) → has_bit (or_bit x i) j ≡ (i == j || has_bit x j)
unfolding has_bit or_bit
has_bit-or_bit x zero zero = ground arith
has_bit-or_bit x zero (suc j) =
    let e : (if x % 2 == 1 then x else x + 1) / 2 ≡ x / 2 = ground arith in rw e (ground arith)
has_bit-or_bit x (suc i) zero = ground arith
has_bit-or_bit x (suc i) (suc j) =
    let e : (x % 2 + 2 * or_bit (x / 2) i) / 2 ≡ or_bit (x / 2) i = omega arith in
    rw e (ground (arith, has_bit-or_bit (x / 2) i j))

has_bit-clear_bit : (x i j : ℕ) → has_bit (clear_bit x i) j ≡ (not (i == j) && has_bit x j)
unfolding has_bit clear_bit
has_bit-clear_bit x zero zero = ground arith
has_bit-clear_bit x zero (suc j) =
    let e : (if x % 2 == 1 then x - 1 else x) / 2 ≡ x / 2 = ground arith in rw e (ground arith)
has_bit-clear_bit x (suc i) zero = ground arith
has_bit-clear_bit x (suc i) (suc j) =
    let e : (x % 2 + 2 * clear_bit (x / 2) i) / 2 ≡ clear_bit (x / 2) i = omega arith in
    rw e (ground (arith, has_bit-clear_bit (x / 2) i j))

unfoldable pub test_bit : Block → ℕ → Bool
test_bit b bi = has_bit (b (bi / 8)) (bi % 8)

unfoldable pub mark_bit : Block → ℕ → Block
mark_bit b bi = update b (bi / 8) (or_bit (b (bi / 8)) (bi % 8))

unfoldable pub free_bit : Block → ℕ → Block
free_bit b bi = update b (bi / 8) (clear_bit (b (bi / 8)) (bi % 8))

-- Marking sets one bit of the block and no other.
pub test_bit-mark_bit : (b : Block) (i j : ℕ) → test_bit (mark_bit b i) j ≡ (i == j || test_bit b j)
unfolding test_bit mark_bit
test_bit-mark_bit b i j = ground (arith, has_bit-or_bit (b (i / 8)) (i % 8) (j % 8))

-- Freeing clears one bit of the block and no other.
pub test_bit-free_bit :
    (b : Block) (i j : ℕ) → test_bit (free_bit b i) j ≡ (not (i == j) && test_bit b j)
unfolding test_bit free_bit
test_bit-free_bit b i j = ground (arith, has_bit-clear_bit (b (i / 8)) (i % 8) (j % 8))
