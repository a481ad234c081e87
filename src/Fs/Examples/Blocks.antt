-- ===== src/Fs/Examples/Blocks.antt =====
-- `balloc` and `bfree` (fs.c) on the small file system.
use zv.Prelude.{ℕ, ◌<◌, ◌≡◌, ◌≢◌, refl, arith, true, false, not, ◌&&◌, ◌||◌, ◌==◌, ok}
use zv.Block.{get_word}
use zv.Disk.{bread, bwrite, modify}
use zv.Log.{log_write, find_slot}
use zv.Log.Transaction
use zv.Fs.{Fs, bitmap_block, read_block, write_block, readsb, bzero}
use zv.Fs.Bits.{has_bit, or_bit, clear_bit, test_bit, mark_bit, free_bit}
use zv.Fs.Writes.{view, InTrans}
use zv.Fs.Bitmap.Defs.{search_bits, balloc_loop, balloc, bfree}
use zv.Fs.Bitmap.Search.{allocated, take_block}
use zv.Fs.Bitmap.Laws.{sb, is_allocated, balloc_lem}
use zv.Fs.Bitmap.Free.{bfree_lem, balloc_takes_log}
use zv.Fs.Examples.Disks.{state_of, full, full-taken, blocks, fs, fs-InTrans, fs-Layout}

abbrev with_block : Fs
unfolding balloc balloc_loop search_bits readsb read_block write_block bzero bread bwrite modify
    log_write find_slot Transaction.write_block test_bit mark_bit has_bit or_bit get_word
with_block = state_of (balloc fs)

allocates : balloc fs ≡ ok (6, with_block)
unfolding with_block balloc balloc_loop search_bits readsb read_block write_block bzero bread bwrite
    modify log_write find_slot Transaction.write_block test_bit mark_bit has_bit or_bit get_word
allocates = refl

six_free : is_allocated fs 6 ≡ false
unfolding test_bit has_bit get_word
six_free = refl

balloc_example :
    (6 < 100)
    × (is_allocated fs 6 ≡ false)
    × ((i : ℕ) → i < 6 → is_allocated fs i ≡ true)
    × InTrans blocks with_block
    × ((i : ℕ)
        → i < (sb fs).size
        → allocated (sb fs).ninodes (view with_block) i ≡ (6 == i || is_allocated fs i))
    × ((i : ℕ) → view with_block 6 i ≡ 0)
    × ((x : ℕ)
        → x < 100
        → x ≢ 6
        → x ≢ bitmap_block 6 (sb fs).ninodes
        → view with_block x ≡ view fs x)
balloc_example =
    balloc_lem blocks fs with_block 6 6 fs-InTrans fs-Layout (omega arith) six_free allocates

abbrev without_block : Fs
unfolding bfree readsb read_block write_block bread bwrite modify log_write find_slot
    Transaction.write_block test_bit free_bit has_bit clear_bit get_word
without_block = state_of (bfree 5 fs)

frees : bfree 5 fs ≡ ok (tt, without_block)
unfolding without_block bfree readsb read_block write_block bread bwrite modify log_write find_slot
    Transaction.write_block test_bit free_bit has_bit clear_bit get_word
frees = refl

bitmap_below : bitmap_block 5 (sb fs).ninodes < 100
unfolding get_word
bitmap_below = omega arith

bfree_example :
    (is_allocated fs 5 ≡ true)
    × InTrans blocks without_block
    × ((i : ℕ)
        → bitmap_block i (sb fs).ninodes < 100
        → allocated (sb fs).ninodes (view without_block) i ≡ (not (5 == i) && is_allocated fs i))
    × ((x : ℕ) → x < 100 → x ≢ bitmap_block 5 (sb fs).ninodes → view without_block x ≡ view fs x)
bfree_example = bfree_lem blocks fs without_block 5 fs-InTrans bitmap_below frees

log_unmarked : is_allocated (full 30) 10 ≡ false
unfolding test_bit has_bit get_word
log_unmarked = refl

log_inside : (full 30).log.start < (sb (full 30)).size
unfolding get_word
log_inside = omega arith

balloc_takes_log_example : balloc (full 30) ≡ take_block (sb (full 30)).ninodes 10 (full 30)
balloc_takes_log_example = balloc_takes_log (full 30) log_inside (full-taken 30) log_unmarked

all_taken : (n : ℕ) → n < (sb (full 10)).size → is_allocated (full 10) n ≡ true
unfolding get_word
all_taken = full-taken 10
