-- ===== src/Fs/Writing/Reread.antt =====
-- `readi` after the loop of `writei_ext` (fs.c).
use zv.Prelude.{
  ℕ, ◌+◌, ◌-◌, ◌*◌, ◌/◌, ◌≤◌, ◌<◌, ◌≡◌, ◌≢◌, ◌∙◌, arith, ltb, leb, if◌then◌else◌, min, Option, some,
  refl, ap, subst, ◌&&◌, get_elem?, ok,
}
use native.Mathlib.Nat.{zero-add}
use zv.Block.{Block, block_size}
use zv.Log.{log_size}
use zv.Fs.{Inode, Fs}
use zv.Fs.Writes.{view, InTrans}
use zv.Fs.Content.{t_dev, DeviceRead, readi}
use zv.Fs.Content.Reading.{file_byte, readi_lem}
use zv.Fs.Writing.{writei_loop}
use zv.Fs.Writing.Loop.{Placed, touched, writei_loop_lem}

-- The loop from its start makes `r` bytes' worth of writes, if the log has room.
abbrev Made : ℕ → Inode → ℕ → (ℕ → ℕ) → ℕ → ℕ → Fs → ℕ → Type 0
Made ip p k src off n s r =
    s.log.n + touched off r ≤ log_size
    → s.log.n + touched off r < s.log.size
    → off + r ≤ k * block_size
    → (t : Fs) × (writei_loop n ip src 0 off n s ≡ ok (off + r, t))
      × (get_elem? t.icache ip ≡ some p)
      × Placed t p k
      × ((x : ℕ)
          → x / block_size < k
          → file_byte (view t) p.copy x
            ≡ (if leb off x && ltb x (off + r) then src (x - off) else file_byte (view s) p.copy x))

loop_from_start :
    (d0 : ℕ → Block) (ip : ℕ) (p : Inode) (k off n : ℕ) (src : ℕ → ℕ) (s : Fs)
    → InTrans d0 s
    → Placed s p k
    → get_elem? s.icache ip ≡ some p
    → Made ip p k src off n s n
loop_from_start d0 ip p k off n src s g pl cached =
    let whole : n - 0 ≡ n = omega arith in
    subst (Made ip p k src off n s) whole (λ small room end.
      let (t, done, g', pl', ic, n', size', start', bytes) =
        writei_loop_lem d0 ip p k src n 0 off n s g pl cached (omega arith) end small room in
      (t, done, ap (λ l. get_elem? l ip) ic ∙ cached, pl', λ x h. bytes x h ∙ simp zero-add refl))

-- `readi` of `n` bytes that the file has.
read_all :
    (t : Fs) (devsw : ℕ → Option DeviceRead) (ip : ℕ) (p : Inode) (k off n : ℕ) (dst : ℕ → ℕ)
    → Placed t p k
    → get_elem? t.icache ip ≡ some p
    → p.type ≢ t_dev
    → off + n ≤ p.size
    → p.size ≤ k * block_size
    → p.size < 4294967296
    → (out : ℕ → ℕ) × (readi devsw ip dst off n t ≡ ok (some (n, out), t))
      × ((j : ℕ) → j < n → out j ≡ file_byte (view t) p.copy (off + j))
read_all t devsw ip p k off n dst pl cached file inside low fits =
    let (out, read, shown) =
      readi_lem t ip p cached devsw dst off n file (omega arith) (omega arith)
        (λ x h h'. pl.mapped (x / block_size) (omega arith)) in
    let all : min n (p.size - off) ≡ n = omega arith in
    (out, read ∙ rw all refl, λ j h. shown j ∙ ground (arith, h))

written :
    (off n j : ℕ) (src : ℕ → ℕ) (old : ℕ)
    → j < n
    → (if leb off (off + j) && ltb (off + j) (off + n) then src (off + j - off) else old) ≡ src j
written off n j src old h =
    let back : off + j - off ≡ j = omega arith in rw back (ground (arith, h))

-- In a transaction, of a file with its first `k` blocks in place, not a device: if the log has room for the blocks that hold the `n` bytes at `off`, which are inside the file, then the loop of `writei_ext` makes its writes, and `readi` at `off` then returns `n` and those bytes.
pub readi-writei_loop :
    (d0 : ℕ → Block) (devsw : ℕ → Option DeviceRead) (ip : ℕ) (p : Inode) (k off n : ℕ)
    (src dst : ℕ → ℕ) (s : Fs)
    → InTrans d0 s
    → Placed s p k
    → get_elem? s.icache ip ≡ some p
    → p.type ≢ t_dev
    → off + n ≤ p.size
    → p.size ≤ k * block_size
    → p.size < 4294967296
    → s.log.n + touched off n ≤ log_size
    → s.log.n + touched off n < s.log.size
    → (t : Fs) × (out : ℕ → ℕ) × (writei_loop n ip src 0 off n s ≡ ok (off + n, t))
      × (readi devsw ip dst off n t ≡ ok (some (n, out), t))
      × ((j : ℕ) → j < n → out j ≡ src j)
readi-writei_loop d0 devsw ip p k off n src dst s g pl cached file inside low fits small room =
    let (t, done, cached', pl', bytes) =
      loop_from_start d0 ip p k off n src s g pl cached small room (omega arith) in
    let (out, read, shown) = read_all t devsw ip p k off n dst pl' cached' file inside low fits in
    (t, out, done, read, λ j h. shown j h ∙ bytes (off + j) (omega arith) ∙ written off n j src _ h)
