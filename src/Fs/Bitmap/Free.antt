-- ===== src/Fs/Bitmap/Free.antt =====
-- `bfree` (fs.c), and `balloc` on a disk that is full up to the log.
use zv.Prelude.{
  ℕ, ◌+◌, ◌/◌, ◌%◌, ◌<◌, ◌≡◌, ◌≢◌, refl, sym, ap, ◌∙◌, inl, inr, true, false, not, ◌&&◌, arith,
  ◌==◌, if◌then◌else◌, Bool-cases, Option, none, some, Result, ok, panic, ℕ_discrete, dec_lt,
}
use zv.Block.{Block}
use zv.Disk.{bread}
use zv.Fs.{Fs, bpb, bitmap_block, read_block, write_block, readsb}
use zv.Fs.Bits.{test_bit, free_bit, test_bit-free_bit}
use zv.Fs.Writes.{view, InTrans, write_block-Wrote}
use zv.Fs.Bitmap.Defs.{balloc, bfree}
use zv.Fs.Bitmap.Search.{allocated, first_free, take_block, first_free-some, first_free-none}
use zv.Fs.Bitmap.Laws.{sb, is_allocated, balloc_unfold, true_not_false}

bfree_cases :
    (n : ℕ) (s t : Fs)
    → bfree n s ≡ ok (tt, t)
    → (is_allocated s n ≡ true)
      × (write_block
            (bitmap_block n (sb s).ninodes)
            (free_bit (view s (bitmap_block n (sb s).ninodes)) (n % bpb))
            s
          ≡ ok (tt, t))
unfolding bfree readsb read_block bread
bfree_cases n s t e = elim (Bool-cases (is_allocated s n)) [
  | inl used ↦ (used, sym (rw used) ∙ e)
  | inr free ↦
      let h : ◌≡◌ {A = Result (Unit {0} × Fs)} (panic "freeing free block") (ok (tt, t)) =
        sym (rw free) ∙ e in
      cc
]

freed-allocated :
    (f : ℕ → Block) (ninodes n i : ℕ) {b : Block}
    → b ≡ (
        if bitmap_block i ninodes == bitmap_block n ninodes
        then free_bit (f (bitmap_block n ninodes)) (n % bpb)
        else f (bitmap_block i ninodes))
    → test_bit b (i % bpb) ≡ (not (n == i) && allocated ninodes f i)
freed-allocated f ninodes n i {b} e =
    elim (ℕ_discrete (bitmap_block i ninodes) (bitmap_block n ninodes)) [
      | no other ↦ rw e (ground (arith, other))
      | yes same ↦
          let q : b ≡ free_bit (f (bitmap_block i ninodes)) (n % bpb) = e ∙ ground (arith, same) in
          rw (q, test_bit-free_bit (f (bitmap_block i ninodes)) (n % bpb) (i % bpb))
            (ground (arith, same))
    ]

-- Inside a transaction, `bfree` of an allocated block clears its bit in the bitmap and no other, and
-- leaves every other block below the log as it is.
pub bfree_lem :
    (d0 : ℕ → Block) (s t : Fs) (n : ℕ)
    → InTrans d0 s
    → bitmap_block n (sb s).ninodes < s.log.start
    → bfree n s ≡ ok (tt, t)
    → (is_allocated s n ≡ true)
      × InTrans d0 t
      × ((i : ℕ)
          → bitmap_block i (sb s).ninodes < s.log.start
          → allocated (sb s).ninodes (view t) i ≡ (not (n == i) && is_allocated s i))
      × ((x : ℕ) → x < s.log.start → x ≢ bitmap_block n (sb s).ninodes → view t x ≡ view s x)
bfree_lem d0 s t n g lt e =
    let (used, wrote) = bfree_cases n s t e in
    let w = write_block-Wrote d0 _ _ s t g lt wrote in
    (
      used,
      w.trans,
      (λ i h.
          freed-allocated (view s) (sb s).ninodes n i (w.blocks (bitmap_block i (sb s).ninodes) h)),
      λ x h ne. w.blocks x h ∙ ground (arith, ne),
    )

-- A block that is free already is not freed again.
pub bfree_free :
    (n : ℕ) (s : Fs) → is_allocated s n ≡ false → bfree n s ≡ panic "freeing free block"
unfolding bfree readsb read_block bread
bfree_free n s free = rw free

search_log :
    (s : Fs) (o : Option ℕ)
    → first_free ((sb s).size / bpb + 1) 0 (sb s).size (sb s).ninodes (view s) ≡ o
    → s.log.start < (sb s).size
    → ((n : ℕ) → n < s.log.start → is_allocated s n ≡ true)
    → is_allocated s s.log.start ≡ false
    → o ≡ some s.log.start
search_log s none e lt full free =
    let used =
      first_free-none ((sb s).size / bpb + 1) 0 (sb s).size (sb s).ninodes (view s) (omega arith)
        (omega arith) e s.log.start (omega arith) lt in
    absurd (true_not_false (sym used ∙ free))
search_log s (some r) e lt full free =
    let (inside, le, r_free, below) = first_free-some _ 0 _ _ r (view s) (omega arith) e in
    elim (ℕ_discrete r s.log.start) [
      | yes q ↦ ap some q
      | no ne ↦ elim (dec_lt r s.log.start) [
        | yes low ↦ absurd (true_not_false (sym (full r low) ∙ r_free))
        | no high ↦
            absurd (true_not_false (sym (below s.log.start (omega arith) (omega arith)) ∙ free))
      ]
    ]

search_full :
    (s : Fs) (o : Option ℕ)
    → first_free ((sb s).size / bpb + 1) 0 (sb s).size (sb s).ninodes (view s) ≡ o
    → ((n : ℕ) → n < (sb s).size → is_allocated s n ≡ true)
    → o ≡ none
search_full s none e full = refl
search_full s (some r) e full =
    let (inside, le, r_free, below) = first_free-some _ 0 _ _ r (view s) (omega arith) e in
    absurd (true_not_false (sym (full r inside) ∙ r_free))

-- The search goes up to the end of the disk, which includes the log, and the log's blocks are not
-- marked.  Whenever every block below the log is allocated and the log's first block is not, `balloc`
-- takes the log's header block.
pub balloc_takes_log :
    (s : Fs)
    → s.log.start < (sb s).size
    → ((n : ℕ) → n < s.log.start → is_allocated s n ≡ true)
    → is_allocated s s.log.start ≡ false
    → balloc s ≡ take_block (sb s).ninodes s.log.start s
balloc_takes_log s lt full free = balloc_unfold s ∙ rw (search_log s _ refl lt full free)

-- `balloc` panics for want of blocks whenever every block of the file system is allocated.
pub balloc_full :
    (s : Fs)
    → ((n : ℕ) → n < (sb s).size → is_allocated s n ≡ true)
    → balloc s ≡ panic "balloc: out of blocks"
balloc_full s full = balloc_unfold s ∙ rw (search_full s _ refl full)
