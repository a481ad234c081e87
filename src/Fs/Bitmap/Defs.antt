-- ===== src/Fs/Bitmap/Defs.antt =====
-- `balloc` and `bfree` (fs.c).
use zv.Prelude.{ℕ, zero, suc, ◌+◌, ◌/◌, ◌%◌, ltb, if◌then◌else◌, Option, none, some}
use zv.Block.{Block}
use zv.Fs.{bpb, bitmap_block, M, pure, fail, ◌>>=◌, ◌>>◌, read_block, write_block, readsb, bzero}
use zv.Fs.Bits.{test_bit, mark_bit, free_bit}

-- The inner loop of `balloc`, `k` bits left: the first free bit `bi` of a bitmap block, below the end of
-- the file system at `size`; `b` is the block of its first bit.
unfoldable pub search_bits : ℕ → ℕ → ℕ → ℕ → Block → Option ℕ
search_bits zero bi b size map = none
search_bits (suc k) bi b size map =
    let more = search_bits k (suc bi) b size map in
    if ltb (b + bi) size then (if test_bit map bi then more else some bi) else none

-- The outer loop, from the bitmap block of `b` on, with fuel.
unfoldable pub balloc_loop : ℕ → ℕ → ℕ → ℕ → M ℕ
unfolding bzero write_block
balloc_loop zero b size ninodes = fail "balloc: out of blocks"
balloc_loop (suc fuel) b size ninodes =
    if ltb b size
    then (do
      map ← read_block (bitmap_block b ninodes)
      elim (search_bits bpb 0 b size map) [
        | some bi ↦ do
          write_block (bitmap_block b ninodes) (mark_bit map bi)
          bzero (b + bi)
          pure (b + bi)
        | none ↦ balloc_loop fuel (b + bpb) size ninodes
      ])
    else fail "balloc: out of blocks"

-- One round for each started bitmap block is enough fuel.
unfoldable pub balloc : M ℕ
unfolding readsb balloc_loop
balloc = do sb ← readsb; balloc_loop (sb.size / bpb + 1) 0 sb.size sb.ninodes

unfoldable pub bfree : ℕ → M (Unit {0})
unfolding readsb write_block
bfree b = do
  sb ← readsb
  map ← read_block (bitmap_block b sb.ninodes)
  if test_bit map (b % bpb)
      then write_block (bitmap_block b sb.ninodes) (free_bit map (b % bpb))
      else fail "freeing free block"
