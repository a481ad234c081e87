-- ===== src/Fs/Content/Reading.antt =====
-- `readi` (fs.c) copies the bytes that `bmap` places.
use zv.Prelude.{
  ℕ, zero, suc, ◌+◌, ◌-◌, ◌/◌, ◌%◌, ◌≤◌, ◌<◌, ◌≡◌, ◌≢◌, refl, ◌∙◌, inl, inr, arith, true, false,
  ◌&&◌, ◌||◌, ◌==◌, ltb, leb, if◌then◌else◌, Option, some, get_elem?, min, ok, Bool-cases, dec_lt,
  ltb→lt,
}
use zv.Block.{Block, block_size, get_word}
use zv.Fs.{Inode, Dinode, Fs, ◌>>=◌, ndirect, nindirect, max_file, read_block}
use zv.Disk.{bread}
use zv.Fs.Writes.{view}
use zv.Fs.Content.{load, direct, indirect, bmap, t_dev, DeviceRead, copy_in, readi_loop, readi}

-- The block that holds block `bn` of a file.
abbrev pub block_of : (ℕ → Block) → Dinode → ℕ → ℕ
block_of f d bn =
    if ltb bn ndirect then d.addrs bn else get_word (f (d.addrs ndirect)) (bn - ndirect)

-- The file has that block, so that none is to be allocated.
pub record Mapped (f : ℕ → Block) (d : Dinode) (bn : ℕ) : Type 0 where
  pub inside : bn < max_file
  pub table : ltb bn ndirect ≡ false → d.addrs ndirect ≢ 0
  pub there : block_of f d bn ≢ 0

-- Byte `x` of the file.
abbrev pub file_byte : (ℕ → Block) → Dinode → ℕ → ℕ
file_byte f d x = f (block_of f d (x / block_size)) (x % block_size)

-- One round of the loop, then the bytes of the rounds after it.
round_bytes :
    (f : ℕ → Block) (d : Dinode) (tot off n k : ℕ) (dst : ℕ → ℕ)
    → k ≤ block_size - off % block_size
    → k ≤ n - tot
    → (j : ℕ)
    → (if leb (tot + k) j && ltb j n
        then file_byte f d (off + k + (j - (tot + k)))
        else copy_in dst tot (f (block_of f d (off / block_size))) (off % block_size) k j)
      ≡ (if leb tot j && ltb j n then file_byte f d (off + (j - tot)) else dst j)
round_bytes f d tot off n k dst le fits j = elim (dec_lt j tot) [
  | yes lo ↦ ground (arith, lo)
  | no lo ↦ elim (dec_lt j (tot + k)) [
    | yes hi ↦
        let q : (off + (j - tot)) / block_size ≡ off / block_size = omega arith in
        let r : (off + (j - tot)) % block_size ≡ off % block_size + (j - tot) = omega arith in
        rw (q, r) (ground (arith, lo, hi))
    | no hi ↦
        let q : off + k + (j - (tot + k)) ≡ off + (j - tot) = omega arith in
        rw q (ground (arith, lo, hi))
  ]
]

module _ (s : Fs) (ip : ℕ) (p : Inode) (cached : get_elem? s.icache ip ≡ some p) where
  pub load_cached : load ip s ≡ ok (p, s)
  unfolding load
  load_cached = rw (load, cached) refl

  direct-Mapped : (i : ℕ) → p.addrs i ≢ 0 → direct ip i s ≡ ok (p.addrs i, s)
  unfolding direct
  direct-Mapped i nz =
      let e : (p.addrs i == 0) ≡ false = ground (arith, nz) in rw (load_cached, ◌>>=◌, e) refl

  indirect-Mapped :
      (b bn : ℕ) → get_word (view s b) bn ≢ 0 → indirect b bn s ≡ ok (get_word (view s b) bn, s)
  unfolding indirect read_block bread
  indirect-Mapped b bn nz =
      let e : (get_word (view s b) bn == 0) ≡ false = ground (arith, nz) in rw e refl

  -- `bmap` of a block that the file has finds it, and changes nothing.
  pub bmap-Mapped :
      (bn : ℕ) → Mapped (view s) p.copy bn → bmap ip bn s ≡ ok (block_of (view s) p.copy bn, s)
  unfolding bmap
  bmap-Mapped bn m = elim (Bool-cases (ltb bn ndirect)) [
    | inl low ↦
        let nz : p.addrs bn ≢ 0 = λ q. m.there (ground (arith, low, q)) in
        rw low (direct-Mapped bn nz)
    | inr high ↦
        let nz : get_word (view s (p.addrs ndirect)) (bn - ndirect) ≢ 0 =
          λ q. m.there (ground (arith, high, q)) in
        let in_table : ltb (bn - ndirect) nindirect ≡ true = ground (arith, high, m.inside) in
        rw (high, in_table, direct-Mapped ndirect (m.table high), ◌>>=◌)
          (indirect-Mapped (p.addrs ndirect) (bn - ndirect) nz)
  ]

  loop_reads :
      (fuel tot off n : ℕ) (dst : ℕ → ℕ)
      → n - tot ≤ fuel
      → ((x : ℕ) → off ≤ x → x < off + (n - tot) → Mapped (view s) p.copy (x / block_size))
      → (out : ℕ → ℕ) × (readi_loop fuel ip tot off n dst s ≡ ok (out, s))
        × ((j : ℕ)
            → out j ≡ (
                if leb tot j && ltb j n
                then file_byte (view s) p.copy (off + (j - tot))
                else dst j))
  unfolding readi_loop read_block bread
  loop_reads zero tot off n dst le m = (dst, refl, λ j. ground arith)
  loop_reads (suc fuel) tot off n dst le m = elim (Bool-cases (ltb tot n)) [
    | inr done ↦ (dst, rw done refl, λ j. ground arith)
    | inl more ↦
        let k : ℕ = min (n - tot) (block_size - off % block_size) in
        let b : Block = view s (block_of (view s) p.copy (off / block_size)) in
        let lt : tot < n = ltb→lt tot n more in
        let (out, done, bytes) =
          loop_reads fuel (tot + k) (off + k) n (copy_in dst tot b (off % block_size) k)
            (omega arith) (λ x h h'. m x (omega arith) (omega arith)) in
        (
          out,
          rw (more, ◌>>=◌, bmap-Mapped (off / block_size) (m off (omega arith) (omega arith))) done,
          λ j. bytes j ∙ round_bytes (view s) p.copy tot off n k dst (omega arith) (omega arith) j,
        )
  ]

  -- `readi` of a file, not a device, at an offset inside it whose sum with `n` is below 2^32, where no block is missing: it returns and gives the bytes from `off` on, `n` of them or as many as the file has, leaves the rest of the destination alone, and changes nothing.
  pub readi_lem :
      (devsw : ℕ → Option DeviceRead) (dst : ℕ → ℕ) (off n : ℕ)
      → p.type ≢ t_dev
      → off ≤ p.size
      → off + n < 4294967296
      → ((x : ℕ) → off ≤ x → x < p.size → Mapped (view s) p.copy (x / block_size))
      → (out : ℕ → ℕ) × (readi devsw ip dst off n s ≡ ok (some (min n (p.size - off), out), s))
        × ((j : ℕ)
            → out j ≡ (
                if ltb j (min n (p.size - off))
                then file_byte (view s) p.copy (off + j)
                else dst j))
  unfolding readi
  readi_lem devsw dst off n file le fits m =
      let whole : (off + n) % 4294967296 ≡ off + n = omega arith in
      let count : (if ltb p.size (off + n) then p.size - off else n) ≡ min n (p.size - off) =
        ground arith in
      let k : ℕ = min n (p.size - off) in
      let (out, done, bytes) =
        loop_reads k 0 off k dst (omega arith) (λ x h h'. m x h (omega arith)) in
      let not_dev : (p.type == t_dev) ≡ false = ground (arith, file) in
      let inside : (ltb p.size off || ltb (off + n) off) ≡ false = ground arith in
      (
        out,
        rw (load_cached, whole, count, not_dev, inside, if◌then◌else◌, ◌>>=◌, done, whole, count)
            refl,
        λ j. bytes j ∙ ground arith,
      )
