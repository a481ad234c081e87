-- ===== src/Fs/Writing/Loop.antt =====
-- The loop of `writei_ext` (fs.c) on a file whose blocks are all there.
use zv.Prelude.{
  ℕ, zero, suc, ◌+◌, ◌-◌, ◌*◌, ◌/◌, ◌%◌, ◌≤◌, ◌<◌, ◌≡◌, ◌≢◌, refl, sym, ap, ◌∙◌, arith, true, false,
  ◌&&◌, ◌==◌, ==_iff, ltb, leb, if◌then◌else◌, min, some, get_elem?, ok, dec_lt, ℕ_discrete,
}
use zv.Block.{Block, block_size}
use zv.Disk.{bread}
use zv.Log.{log_size}
use zv.Fs.{Inode, Fs, ◌>>=◌, ◌>>◌, ndirect, read_block}
use zv.Fs.Writes.{view, InTrans, Wrote, write_block_accepted}
use zv.Fs.Content.{copy_in}
use zv.Fs.Content.Reading.{block_of, Mapped, file_byte, bmap-Mapped}
use zv.Fs.Writing.{writei_loop}

-- The first `k` blocks of the file are there, below the log, distinct, and not its indirect block.
pub record Placed (s : Fs) (p : Inode) (k : ℕ) : Type 0 where
  pub mapped : (bn : ℕ) → bn < k → Mapped (view s) p.copy bn
  pub low : (bn : ℕ) → bn < k → block_of (view s) p.copy bn < s.log.start
  pub apart :
      (bn c : ℕ)
      → bn < k
      → c < k
      → bn ≢ c
      → block_of (view s) p.copy bn ≢ block_of (view s) p.copy c
  pub not_table : (bn : ℕ) → bn < k → block_of (view s) p.copy bn ≢ p.addrs ndirect
  pub table_low : p.addrs ndirect < s.log.start

-- After a write to a block of the file the blocks are where they were.
module _ (d0 : ℕ → Block) (s t : Fs) (p : Inode) (k bn : ℕ) (c : Block) (g : Placed s p k)
    (lt : bn < k)
    (w : Wrote d0 s t (λ x. if x == block_of (view s) p.copy bn then c else view s x)) where
  table_kept : view t (p.addrs ndirect) ≡ view s (p.addrs ndirect)
  table_kept = w.blocks (p.addrs ndirect) g.table_low ∙ ground (arith, g.not_table bn lt)

  pub block_of_kept : (x : ℕ) → block_of (view t) p.copy x ≡ block_of (view s) p.copy x
  block_of_kept x = rw table_kept refl

  pub Placed-kept : Placed t p k
  Placed-kept = record {
    mapped = λ x h. record {
      inside = (g.mapped x h).inside;
      table = (g.mapped x h).table;
      there = λ e. (g.mapped x h).there (sym (block_of_kept x) ∙ e);
    };
    low = λ x h. rw (block_of_kept x, w.start) (g.low x h);
    apart = λ x y h h' ne e. g.apart x y h h' ne (sym (block_of_kept x) ∙ e ∙ block_of_kept y);
    not_table = λ x h e. g.not_table x h (sym (block_of_kept x) ∙ e);
    table_low = rw w.start g.table_low;
  }

  pub byte_written :
      (x : ℕ)
      → x / block_size < k
      → file_byte (view t) p.copy x
        ≡ (if x / block_size == bn then c (x % block_size) else file_byte (view s) p.copy x)
  byte_written x h =
      let shown : view t (block_of (view s) p.copy (x / block_size)) ≡ (
          if block_of (view s) p.copy (x / block_size) == block_of (view s) p.copy bn
          then c
          else view s (block_of (view s) p.copy (x / block_size))) =
        w.blocks (block_of (view s) p.copy (x / block_size)) (g.low (x / block_size) h) in
      let at : file_byte (view t) p.copy x
          ≡ view t (block_of (view s) p.copy (x / block_size)) (x % block_size) =
        ap (λ y. view t y (x % block_size)) (block_of_kept (x / block_size)) in
      at ∙ ap (λ (f : Block). f (x % block_size)) shown ∙ pick (x / block_size) (x % block_size) h
    where
      same_block :
          (b o y z : ℕ)
          → b ≢ bn
          → y ≢ z
          → (if y == z then c else view s y) o ≡ (if b == bn then c o else view s y o)
      same_block b o y z ne ne' =
          let e : (b == bn) ≡ false = ground (arith, ne) in
          let e' : (y == z) ≡ false = ground (arith, ne') in rw (e, e') refl

      pick :
          (b o : ℕ)
          → b < k
          → (if block_of (view s) p.copy b == block_of (view s) p.copy bn
                then c
                else view s (block_of (view s) p.copy b))
              o
            ≡ (if b == bn then c o else view s (block_of (view s) p.copy b) o)
      pick b o h' = elim (ℕ_discrete b bn) [
        | yes e ↦
            rw (e, (==_iff bn bn).1 refl, (==_iff (block_of (view s) p.copy bn) _).1 refl) refl
        | no ne ↦
            same_block b o (block_of (view s) p.copy b) (block_of (view s) p.copy bn) ne
              (g.apart b bn h' lt ne)
      ]

-- One round of the loop, then the rounds after it, on byte `x` of the file.
round_bytes :
    (tot off n m x old : ℕ) (b : Block) (src : ℕ → ℕ)
    → tot < n
    → m ≡ min (n - tot) (block_size - off % block_size)
    → (x / block_size ≡ off / block_size → b (x % block_size) ≡ old)
    → (if leb (off + m) x && ltb x (off + m + (n - (tot + m)))
        then src (tot + m + (x - (off + m)))
        else if x / block_size == off / block_size
        then copy_in b (off % block_size) src tot m (x % block_size)
        else old)
      ≡ (if leb off x && ltb x (off + (n - tot)) then src (tot + (x - off)) else old)
round_bytes tot off n m x old b src lt e same = elim (dec_lt x off) [
  | yes before ↦ elim (ℕ_discrete (x / block_size) (off / block_size)) [
    | yes here ↦
        let h : x % block_size < off % block_size = omega arith in
        ground (arith, before, h, here, same here)
    | no there ↦ ground (arith, before, there)
  ]
  | no after ↦ elim (dec_lt x (off + m)) [
    | yes now ↦
        let here : x / block_size ≡ off / block_size = omega arith in
        let at : tot + (x % block_size - off % block_size) ≡ tot + (x - off) = omega arith in
        let lo : off % block_size ≤ x % block_size = omega arith in
        let hi : x % block_size < off % block_size + m = omega arith in
        let inside : x < off + (n - tot) = omega arith in
        ground (arith, now, here, ap src at, lo, hi, inside, after)
    | no later ↦ elim (dec_lt x (off + (n - tot))) [
      | yes rest ↦
          let at : tot + m + (x - (off + m)) ≡ tot + (x - off) = omega arith in
          let inside : x < off + m + (n - (tot + m)) = omega arith in
          ground (arith, later, rest, ap src at, inside, after)
      | no past ↦ elim (ℕ_discrete (x / block_size) (off / block_size)) [
        | yes here ↦
            let h : off % block_size + m ≤ x % block_size = omega arith in
            ground (arith, past, h, here, same here)
        | no there ↦ ground (arith, past, there)
      ]
    ]
  ]
]

-- The blocks that a write of `n` bytes at `off` touches.
unfoldable pub touched : ℕ → ℕ → ℕ
touched off zero = 0
touched off (suc n) = (off % block_size + n) / block_size + 1

-- One round touches one block less.
touched_step :
    (tot off n m : ℕ)
    → tot < n
    → m ≡ min (n - tot) (block_size - off % block_size)
    → touched (off + m) (n - (tot + m)) + 1 ≤ touched off (n - tot)
unfolding touched
touched_step tot off n m lt e = go (n - tot) (n - (tot + m)) (omega arith) (omega arith)
  where
    go : (k r : ℕ) → k ≡ n - tot → r ≡ k - m → touched (off + m) r + 1 ≤ touched off k
    go zero r e1 e2 = omega arith
    go (suc k) zero e1 e2 = omega arith
    go (suc k) (suc r) e1 e2 = omega arith

module _ (d0 : ℕ → Block) (ip : ℕ) (p : Inode) (k : ℕ) (src : ℕ → ℕ) where
  -- The loop makes all its writes, if the log has room for the blocks that it touches; the file then has the new bytes at their place and its other bytes as before, and its blocks are where they were.
  pub writei_loop_lem :
      (fuel tot off n : ℕ) (s : Fs)
      → InTrans d0 s
      → Placed s p k
      → get_elem? s.icache ip ≡ some p
      → n - tot ≤ fuel
      → off + (n - tot) ≤ k * block_size
      → s.log.n + touched off (n - tot) ≤ log_size
      → s.log.n + touched off (n - tot) < s.log.size
      → (t : Fs) × (writei_loop fuel ip src tot off n s ≡ ok (off + (n - tot), t))
        × InTrans d0 t
        × Placed t p k
        × (t.icache ≡ s.icache)
        × (t.log.n ≤ s.log.n + touched off (n - tot))
        × (t.log.size ≡ s.log.size)
        × (t.log.start ≡ s.log.start)
        × ((x : ℕ)
            → x / block_size < k
            → file_byte (view t) p.copy x ≡ (
                if leb off x && ltb x (off + (n - tot))
                then src (tot + (x - off))
                else file_byte (view s) p.copy x))
  unfolding writei_loop read_block bread
  writei_loop_lem zero tot off n s g pl cached fuel end small room =
      let stop : off + (n - tot) ≡ off = omega arith in
      (s, rw stop refl, g, pl, refl, omega arith, refl, refl, λ x h. ground arith)
  writei_loop_lem (suc fuel) tot off n s g pl cached enough end small room = elim (dec_lt tot n) [
    | no done ↦
        let over : ltb tot n ≡ false = ground (arith, done) in
        let stop : off + (n - tot) ≡ off = omega arith in
        (s, rw (over, stop) refl, g, pl, refl, omega arith, refl, refl, λ x h. ground (arith, done))
    | yes more ↦
        let m : ℕ = min (n - tot) (block_size - off % block_size) in
        let bn : ℕ = off / block_size in
        let at : ℕ = block_of (view s) p.copy bn in
        let b : Block = copy_in (view s at) (off % block_size) src tot m in
        let lt : bn < k = omega arith in
        let less : touched (off + m) (n - (tot + m)) + 1 ≤ touched off (n - tot) =
          touched_step tot off n m more refl in
        let (u, wrote, w, up, size) =
          write_block_accepted d0 at b s g (pl.low bn lt) (omega arith) (omega arith) in
        let (t, done, g', pl', ic, n', size', start', bytes) =
          writei_loop_lem fuel (tot + m) (off + m) n u w.trans (Placed-kept d0 s u p k bn b pl lt w)
            (rw w.icache cached) (omega arith) (omega arith) (omega arith) (omega arith) in
        let go_on : ltb tot n ≡ true = ground (arith, more) in
        let e : off + m + (n - (tot + m)) ≡ off + (n - tot) = omega arith in
        (
          t,
          rw (go_on, ◌>>=◌, bmap-Mapped s ip p cached bn (pl.mapped bn lt), ◌>>◌, wrote)
              (done ∙ ap (λ (y : ℕ). ok (y, t)) e),
          g',
          pl',
          ic ∙ w.icache,
          omega arith,
          size' ∙ size,
          start' ∙ w.start,
          λ x h.
              bytes x h
              ∙ ap
                  (λ y.
                    if leb (off + m) x && ltb x (off + m + (n - (tot + m)))
                    then src (tot + m + (x - (off + m)))
                    else y)
                  (byte_written d0 s u p k bn b pl lt w x h)
              ∙ round_bytes tot off n m x (file_byte (view s) p.copy x) (view s at) src more refl
                  (λ e'. ap (λ y. view s (block_of (view s) p.copy y) (x % block_size)) (sym e')),
        )
  ]
