-- ===== src/Fs/Ilock/Total.antt =====
-- `ichecksum` (fs.c) of a file without holes returns.
use zv.Prelude.{
  ℕ, zero, suc, ◌+◌, ◌-◌, ◌/◌, ◌%◌, ◌^◌, ◌*◌, ◌≤◌, ◌<◌, ◌≡◌, ◌≢◌, refl, arith, true, false, ◌==◌,
  ==_iff, Option, some, get_elem?, min, ok, ℕ_discrete,
}
use zv.Fs.{Inode, Fs, ◌>>=◌}
use Prim.Native.Nat.pow
use zv.Block.{Block, get_word}
use zv.Fs.Writes.{view}
use zv.Fs.Content.{t_dev, DeviceRead}
use zv.Fs.Content.Reading.{Mapped, readi_lem, load_cached}
use zv.Fs.Ilock.{xor, xor_words, checksum_loop, ichecksum}

xor-lt : (w a b : ℕ) → xor w a b < 2 ^ w
unfolding xor
xor-lt zero a b = omega arith
xor-lt (suc w) a b =
    let half : xor w (a / 2) (b / 2) < 2 ^ w = xor-lt w (a / 2) (b / 2) in
    let twice : 2 ^ suc w ≡ 2 ^ w * 2 = pow.suc 2 w in rw twice (omega (arith, half))

xor_words-lt :
    (k i : ℕ) (buf : Block) (sum : ℕ) → sum < 4294967296 → xor_words k i buf sum < 4294967296
unfolding xor_words
xor_words-lt zero i buf sum h = h
xor_words-lt (suc k) i buf sum h =
    xor_words-lt k (suc i) buf (xor 32 sum (get_word buf i)) (xor-lt 32 sum (get_word buf i))

module _ (devsw : ℕ → Option DeviceRead) (s : Fs) (ip : ℕ) (p : Inode)
    (cached : get_elem? s.icache ip ≡ some p) (file : p.type ≢ t_dev)
    (small : p.size + 2048 < 4294967296)
    (whole : (x : ℕ) → x < p.size → Mapped (view s) p.copy (x / 512)) where
  loop_returns :
      (fuel off sum : ℕ)
      → off ≤ p.size
      → p.size - off < fuel
      → sum < 4294967296
      → (r : ℕ) × (checksum_loop fuel devsw ip off sum s ≡ ok (r, s)) × (r < 4294967296)
  unfolding checksum_loop
  loop_returns zero off sum le lt word = absurd (omega arith)
  loop_returns (suc fuel) off sum le lt word =
      let (buf, done, bytes) =
        readi_lem s ip p cached devsw (λ _. 0) off 2048 file le (omega arith)
          (λ x h h'. whole x h') in
      let k : ℕ = min 2048 (p.size - off) in
      elim (ℕ_discrete k 0) [
        | yes end ↦
            let stop : (k == 0) ≡ true = (==_iff k 0).1 end in
            (sum, rw (done, ◌>>=◌, stop) refl, word)
        | no more ↦
            let go_on : (k == 0) ≡ false = ground (arith, more) in
            let next : (off + k) % 4294967296 ≡ off + k = omega arith in
            let (r, rest, fits) =
              loop_returns fuel ((off + k) % 4294967296) (xor_words 512 0 buf sum) (omega arith)
                (omega arith) (xor_words-lt 512 0 buf sum word) in
            (r, rw (done, ◌>>=◌, go_on) rest, fits)
      ]

  -- `ichecksum` of a file, not a device, that has all its blocks returns a sum of 32 bits, within its fuel, and changes
  -- nothing.
  pub ichecksum_returns : (r : ℕ) × (ichecksum devsw ip s ≡ ok (r, s)) × (r < 4294967296)
  unfolding ichecksum
  ichecksum_returns =
      let not_dev : (p.type == t_dev) ≡ false = ground (arith, file) in
      let (r, done, fits) =
        loop_returns (p.size + 2) 0 0 (omega arith) (omega arith) (omega arith) in
      (r, rw (ichecksum, load_cached s ip p cached, ◌>>=◌, not_dev) done, fits)
