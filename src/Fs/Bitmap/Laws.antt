-- ===== src/Fs/Bitmap/Laws.antt =====
-- `balloc` and `bfree` (fs.c) as operations on the set of allocated blocks.
use zv.Prelude.{
  ℕ, ◌+◌, ◌/◌, ◌%◌, ◌≤◌, ◌<◌, ◌≡◌, ◌≢◌, refl, sym, ap, subst, ◌∙◌, Bool, true, false, ◌||◌, arith,
  ◌==◌, ==_iff, if◌then◌else◌, Option, none, some, Result, ok, panic, ℕ_discrete, dec_lt,
}
use zv.Block.{Block}
use zv.Disk.{bread}
use zv.Fs.{
  Fs, bpb, bitmap_block, pure, read_block, write_block, bzero, readsb, superblock_of, Superblock,
  seq_ok,
}
use zv.Fs.Bits.{test_bit, mark_bit, test_bit-mark_bit}
use zv.Fs.Writes.{view, InTrans, Wrote, write_block-Wrote}
use zv.Fs.Bitmap.Defs.{balloc}
use zv.Fs.Bitmap.Search.{allocated, first_free, take_block, first_free-some, balloc_loop-first_free}

-- The super block that `readsb` reads.
abbrev pub sb : Fs → Superblock
sb s = superblock_of (view s 1)

abbrev pub is_allocated : Fs → ℕ → Bool
is_allocated s n = allocated (sb s).ninodes (view s) n

-- The layout of fs.h: the boot block, the super block, the inodes and the bitmap come first and are
-- marked as allocated; the log is the last part of the `size` blocks.
pub record Layout (s : Fs) : Type 0 where
  pub inside : s.log.start ≤ (sb s).size
  pub meta : (n : ℕ) → n ≤ bitmap_block (sb s).size (sb s).ninodes → is_allocated s n ≡ true

module _ (d0 : ℕ → Block) (ninodes n : ℕ) (s t : Fs) (g : InTrans d0 s)
    (data_block : bitmap_block n ninodes < n) (below : n < s.log.start) where
  abbrev taken : ℕ → Block
  taken x =
      if x == n
      then (λ _. 0)
      else if x == bitmap_block n ninodes
      then mark_bit (view s (bitmap_block n ninodes)) (n % bpb)
      else view s x

  take_block-Wrote : (r : ℕ) → take_block ninodes n s ≡ ok (r, t) → (r ≡ n) × Wrote d0 s t taken
  unfolding take_block read_block bread bzero
  take_block-Wrote r e =
      let (u, first, e1) = seq_ok (write_block (bitmap_block n ninodes) _) _ s r t e in
      let (v, second, e2) = seq_ok (write_block n (λ _. 0)) (pure n) u r t e1 in
      let w1 = write_block-Wrote d0 _ _ s u g (omega arith) first in
      let w2 = write_block-Wrote d0 n (λ _. 0) u v w1.trans (omega (arith, w1.start)) second in
      let same : v ≡ t = ground (arith, e2) in
      (
        ground (arith, e2),
        subst (λ k. Wrote d0 s k taken) same
            (record {
              trans = w2.trans;
              start = w2.start ∙ w1.start;
              blocks =
                  λ x lt. w2.blocks x (omega (arith, w1.start)) ∙ ground (arith, w1.blocks x lt);
              icache = w2.icache ∙ w1.icache;
            }),
      )

pub balloc_unfold :
    (s : Fs)
    → balloc s ≡ elim (first_free ((sb s).size / bpb + 1) 0 (sb s).size (sb s).ninodes (view s)) [
      | some n ↦ take_block (sb s).ninodes n s
      | none ↦ panic "balloc: out of blocks"
    ]
unfolding balloc readsb read_block bread
balloc_unfold s =
    balloc_loop-first_free ((sb s).size / bpb + 1) 0 (sb s).size (sb s).ninodes s (omega arith)

-- What `balloc` takes is the lowest free block.
balloc_lowest :
    (s : Fs) (n : ℕ) (t : Fs)
    → balloc s ≡ ok (n, t)
    → (r : ℕ) × (take_block (sb s).ninodes r s ≡ ok (n, t))
      × (r < (sb s).size)
      × (is_allocated s r ≡ false)
      × ((m : ℕ) → m < r → is_allocated s m ≡ true)
balloc_lowest s n t e =
    go (first_free ((sb s).size / bpb + 1) 0 (sb s).size (sb s).ninodes (view s)) refl
  where
    go :
        (o : Option ℕ)
        → first_free ((sb s).size / bpb + 1) 0 (sb s).size (sb s).ninodes (view s) ≡ o
        → (r : ℕ) × (take_block (sb s).ninodes r s ≡ ok (n, t))
          × (r < (sb s).size)
          × (is_allocated s r ≡ false)
          × ((m : ℕ) → m < r → is_allocated s m ≡ true)
    go none q =
        let h : ◌≡◌ {A = Result (ℕ × Fs)} (panic "balloc: out of blocks") (ok (n, t)) =
          sym (balloc_unfold s ∙ rw q) ∙ e in
        cc
    go (some r) q =
        let (lt, le, free, below) = first_free-some _ 0 _ _ r (view s) (omega arith) q in
        (r, sym (balloc_unfold s ∙ rw q) ∙ e, lt, free, (λ m. below m (omega arith)))

pub true_not_false : true ≡ false → ⊥
true_not_false e = cc

-- The bitmap after its block was written and block `r` zeroed.
taken-allocated :
    (f : ℕ → Block) (ninodes r i : ℕ) {b : Block}
    → bitmap_block i ninodes ≢ r
    → b ≡ (
        if bitmap_block i ninodes == r
        then (λ _. 0)
        else if bitmap_block i ninodes == bitmap_block r ninodes
        then mark_bit (f (bitmap_block r ninodes)) (r % bpb)
        else f (bitmap_block i ninodes))
    → test_bit b (i % bpb) ≡ (r == i || allocated ninodes f i)
taken-allocated f ninodes r i {b} ne e =
    elim (ℕ_discrete (bitmap_block i ninodes) (bitmap_block r ninodes)) [
      | no other ↦ rw e (ground (arith, ne, other))
      | yes same ↦
          let q : b ≡ mark_bit (f (bitmap_block i ninodes)) (r % bpb) =
            e ∙ ground (arith, ne, same) in
          rw (q, test_bit-mark_bit (f (bitmap_block i ninodes)) (r % bpb) (i % bpb))
            (ground (arith, same))
    ]

-- Inside a transaction, on a disk where the blocks up to the bitmap are marked as allocated and the log
-- comes last, and with a free block below the log, a call of `balloc` that returns gives the lowest free
-- block; afterwards the bitmap has that block, and differs in nothing else; the block is zeroed; and
-- every other block below the log, but for one bitmap block, shows what it did.
pub balloc_lem :
    (d0 : ℕ → Block) (s t : Fs) (n m : ℕ)
    → InTrans d0 s
    → Layout s
    → m < s.log.start
    → is_allocated s m ≡ false
    → balloc s ≡ ok (n, t)
    → (n < s.log.start)
      × (is_allocated s n ≡ false)
      × ((i : ℕ) → i < n → is_allocated s i ≡ true)
      × InTrans d0 t
      × ((i : ℕ)
          → i < (sb s).size
          → allocated (sb s).ninodes (view t) i ≡ (n == i || is_allocated s i))
      × ((i : ℕ) → view t n i ≡ 0)
      × ((x : ℕ)
          → x < s.log.start
          → x ≢ n
          → x ≢ bitmap_block n (sb s).ninodes
          → view t x ≡ view s x)
balloc_lem d0 s t n m g lay lt free e =
    let (r, took, fits, r_free, below) = balloc_lowest s n t e in
    let low : r ≤ m = elim (dec_lt m r) [
      | yes h ↦ absurd (true_not_false (sym (below m h) ∙ free))
      | no h ↦ omega arith
    ] in
    let past : bitmap_block (sb s).size (sb s).ninodes < r =
      elim (dec_lt (bitmap_block (sb s).size (sb s).ninodes) r) [
        | yes h ↦ h
        | no h ↦ absurd (true_not_false (sym (lay.meta r (omega arith)) ∙ r_free))
      ] in
    let (q, w) = take_block-Wrote d0 (sb s).ninodes r s t g (omega arith) (omega arith) n took in
    rw q (
      omega arith,
      r_free,
      below,
      w.trans,
      (λ i h.
          taken-allocated (view s) (sb s).ninodes r i (omega arith)
            (w.blocks (bitmap_block i (sb s).ninodes) (omega arith))),
      (λ i. ground (arith, ap (λ (f : Block). f i) (w.blocks r (omega arith)), ==_iff r r)),
      λ x h a b. w.blocks x h ∙ ground (arith, a, b),
    )
