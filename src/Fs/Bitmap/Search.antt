-- ===== src/Fs/Bitmap/Search.antt =====
-- The search of `balloc` (fs.c) finds the lowest free block, and its fuel is enough.
use zv.Prelude.{
  ℕ, zero, suc, ◌+◌, ◌-◌, ◌*◌, ◌/◌, ◌%◌, ◌≤◌, ◌<◌, ◌≡◌, refl, ap, ◌∙◌, inl, inr, Bool, true, false,
  arith, ltb, lt→ltb, if◌then◌else◌, Bool-cases, Option-cases, ℕ_discrete, dec_lt, Option, none,
  some, panic,
}
use zv.Disk.{bread}
use zv.Block.{Block}
use zv.Fs.{Fs, M, bpb, bitmap_block, pure, ◌>>=◌, ◌>>◌, read_block, write_block, bzero}
use zv.Fs.Bits.{test_bit, mark_bit}
use zv.Fs.Writes.{view}
use zv.Fs.Bitmap.Defs.{search_bits, balloc_loop}

-- The bitmap's bit of block `n`, in what `f` shows.
abbrev pub allocated : ℕ → (ℕ → Block) → ℕ → Bool
allocated ninodes f n = test_bit (f (bitmap_block n ninodes)) (n % bpb)

search_bits-some :
    (k bi b size r : ℕ) (map : Block)
    → search_bits k bi b size map ≡ some r
    → (bi ≤ r)
      × (r < bi + k)
      × (b + r < size)
      × (test_bit map r ≡ false)
      × ((i : ℕ) → bi ≤ i → i < r → test_bit map i ≡ true)
unfolding search_bits
search_bits-some zero bi b size r map e = cc
search_bits-some (suc k) bi b size r map e = elim (Bool-cases (ltb (b + bi) size)) [
  | inr past ↦ ground (arith, past, e)
  | inl inside ↦ elim (Bool-cases (test_bit map bi)) [
    | inr free ↦
        let q : bi ≡ r = ground (arith, inside, free, e) in
        (omega arith, omega arith, ground arith, rw (← q) free, λ i le lt. absurd (omega arith))
    | inl taken ↦
        let (le, lt, fits, free, below) =
          search_bits-some k (suc bi) b size r map (ground (arith, inside, taken, e)) in
        (
          omega arith,
          omega arith,
          fits,
          free,
          λ i h l. elim (ℕ_discrete i bi) [ yes q ↦ rw q taken | no ne ↦ below i (omega arith) l ],
        )
  ]
]

search_bits-none :
    (k bi b size : ℕ) (map : Block)
    → search_bits k bi b size map ≡ none
    → (i : ℕ) → bi ≤ i
    → i < bi + k
    → b + i < size
    → test_bit map i ≡ true
unfolding search_bits
search_bits-none zero bi b size map e i le lt fits = absurd (omega arith)
search_bits-none (suc k) bi b size map e i le lt fits =
    let inside : ltb (b + bi) size ≡ true = lt→ltb _ _ (omega arith) in
    elim (Bool-cases (test_bit map bi)) [
      | inr free ↦ ground (arith, inside, free, e)
      | inl taken ↦ elim (ℕ_discrete i bi) [
        | yes q ↦ rw q taken
        | no ne ↦
            search_bits-none k (suc bi) b size map (ground (arith, inside, taken, e)) i
              (omega arith) (omega arith) fits
      ]
    ]

-- The loops of `balloc` without their effects.
unfoldable pub first_free : ℕ → ℕ → ℕ → ℕ → (ℕ → Block) → Option ℕ
first_free zero b size ninodes f = none
first_free (suc fuel) b size ninodes f =
    let more = first_free fuel (b + bpb) size ninodes f in
    if ltb b size
    then elim (search_bits bpb 0 b size (f (bitmap_block b ninodes))) [
      | some bi ↦ some (b + bi)
      | none ↦ more
    ]
    else none

-- What `balloc` does with the block that it found.
unfoldable pub take_block : ℕ → ℕ → M ℕ
take_block ninodes n = do
  map ← read_block (bitmap_block n ninodes)
  write_block (bitmap_block n ninodes) (mark_bit map (n % bpb))
  bzero n
  pure n

same_map :
    (ninodes b m : ℕ) (f : ℕ → Block)
    → b % bpb ≡ 0
    → b ≤ m
    → m < b + bpb
    → allocated ninodes f m ≡ test_bit (f (bitmap_block b ninodes)) (m - b)
same_map ninodes b m f z le lt =
    let q : m / bpb ≡ b / bpb = omega arith in let r : m % bpb ≡ m - b = omega arith in rw (q, r)

pub first_free-some :
    (fuel b size ninodes n : ℕ) (f : ℕ → Block)
    → b % bpb ≡ 0
    → first_free fuel b size ninodes f ≡ some n
    → (n < size)
      × (b ≤ n)
      × (allocated ninodes f n ≡ false)
      × ((m : ℕ) → b ≤ m → m < n → allocated ninodes f m ≡ true)
unfolding first_free
first_free-some zero b size ninodes n f z e = cc
first_free-some (suc fuel) b size ninodes n f z e = elim (Bool-cases (ltb b size)) [
  | inr past ↦ ground (arith, past, e)
  | inl inside ↦ elim (Option-cases (search_bits bpb 0 b size (f (bitmap_block b ninodes)))) [
    | inr (bi, found) ↦
        let (le, lt, fits, free, below) = search_bits-some bpb 0 b size bi _ found in
        let q : b + bi ≡ n = ground (arith, inside, found, e) in
        (
          omega arith,
          omega arith,
          same_map ninodes b n f z (omega arith) (omega arith)
              ∙ ap (test_bit (f (bitmap_block b ninodes))) (omega arith)
              ∙ free,
          λ m h l.
              same_map ninodes b m f z h (omega arith) ∙ below (m - b) (omega arith) (omega arith),
        )
    | inl full ↦
        let (lt, le, free, below) =
          first_free-some fuel (b + bpb) size ninodes n f (omega arith)
            (ground (arith, inside, full, e)) in
        (
          lt,
          omega arith,
          free,
          λ m h l. elim (dec_lt m (b + bpb)) [
            | no later ↦ below m (omega arith) l
            | yes here ↦
                same_map ninodes b m f z h here
                ∙ search_bits-none bpb 0 b size _ full (m - b) (omega arith) (omega arith)
                    (omega arith)
          ],
        )
  ]
]

-- With one round for each started bitmap block, nothing is found only if nothing is free.
pub first_free-none :
    (fuel b size ninodes : ℕ) (f : ℕ → Block)
    → b % bpb ≡ 0
    → size ≤ b + fuel * bpb
    → first_free fuel b size ninodes f ≡ none
    → (m : ℕ) → b ≤ m
    → m < size
    → allocated ninodes f m ≡ true
unfolding first_free
first_free-none zero b size ninodes f z enough e m h l = absurd (omega arith)
first_free-none (suc fuel) b size ninodes f z enough e m h l =
    let inside : ltb b size ≡ true = lt→ltb _ _ (omega arith) in
    elim (Option-cases (search_bits bpb 0 b size (f (bitmap_block b ninodes)))) [
      | inr (bi, found) ↦ ground (arith, inside, found, e)
      | inl full ↦ elim (dec_lt m (b + bpb)) [
        | yes here ↦
            same_map ninodes b m f z h here
            ∙ search_bits-none bpb 0 b size _ full (m - b) (omega arith) (omega arith) (omega arith)
        | no later ↦
            first_free-none fuel (b + bpb) size ninodes f (omega arith) (omega arith)
              (ground (arith, inside, full, e)) m (omega arith) l
      ]
    ]

-- A round of the outer loop.
balloc_round :
    (fuel b size ninodes : ℕ) (s : Fs) (r : Option ℕ)
    → ltb b size ≡ true
    → search_bits bpb 0 b size (view s (bitmap_block b ninodes)) ≡ r
    → balloc_loop (suc fuel) b size ninodes s ≡ elim r [
      | some bi ↦
          (write_block (bitmap_block b ninodes) (mark_bit (view s (bitmap_block b ninodes)) bi)
              >> (bzero (b + bi) >> pure (b + bi)))
            s
      | none ↦ balloc_loop fuel (b + bpb) size ninodes s
    ]
unfolding balloc_loop read_block bread
balloc_round fuel b size ninodes s none inside e = rw (inside, if◌then◌else◌, ◌>>=◌, e)
balloc_round fuel b size ninodes s (some bi) inside e = rw (inside, if◌then◌else◌, ◌>>=◌, e)

-- The loops of `balloc` take the block that the search finds.
pub balloc_loop-first_free :
    (fuel b size ninodes : ℕ) (s : Fs)
    → b % bpb ≡ 0
    → balloc_loop fuel b size ninodes s ≡ elim (first_free fuel b size ninodes (view s)) [
      | some n ↦ take_block ninodes n s
      | none ↦ panic "balloc: out of blocks"
    ]
unfolding first_free take_block read_block bread
balloc_loop-first_free zero b size ninodes s z = unfold balloc_loop in refl
balloc_loop-first_free (suc fuel) b size ninodes s z = elim (Bool-cases (ltb b size)) [
  | inr past ↦ rw past (unfold balloc_loop in rw past)
  | inl inside ↦ elim (Option-cases (search_bits bpb 0 b size (view s (bitmap_block b ninodes)))) [
    | inl full ↦
        balloc_round fuel b size ninodes s none inside full
        ∙ rw (inside, full) (balloc_loop-first_free fuel (b + bpb) size ninodes s (omega arith))
    | inr (bi, found) ↦
        let lt : bi < bpb = (search_bits-some bpb 0 b size bi _ found).1 in
        let q : (b + bi) / bpb ≡ b / bpb = omega arith in
        let r : (b + bi) % bpb ≡ bi = omega arith in
        balloc_round fuel b size ninodes s (some bi) inside found ∙ rw (inside, found, q, r)
  ]
]
