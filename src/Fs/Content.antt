-- ===== src/Fs/Content.antt =====
-- fs.c: the blocks of a file, `bmap` and `readi`.  A pointer to an inode is its index in `icache.inode`.
pub mod Reading
use zv.Prelude.{
  ℕ, zero, suc, ◌+◌, ◌-◌, ◌*◌, ◌/◌, ◌%◌, Bool, true, false, ◌&&◌, ◌||◌, not, ◌==◌, ltb, leb,
  if◌then◌else◌, update, List, Option, none, some, get_elem?, set, min, ok, panic,
}
use zv.Block.{Block, block_size, get_word, set_word}
use zv.Fs.{
  Inode, Dinode, Fs, M, pure, fail, ◌>>=◌, ◌>>◌, ndirect, nindirect, read_block, write_block,
}
use zv.Fs.Bitmap.Defs.{balloc}

-- `*ip`.
unfoldable pub load : ℕ → M Inode
load ip s = elim (get_elem? s.icache ip) [ some p ↦ ok (p, s) | none ↦ panic "no such inode" ]

unfoldable pub store_inode : ℕ → Inode → M (Unit {0})
store_inode ip p s = ok (tt, record s { icache = set s.icache ip p })

-- `ip->addrs[i] = addr`.
unfoldable pub set_addr : ℕ → ℕ → ℕ → M (Unit {0})
unfolding load store_inode
set_addr ip i addr = do
  p ← load ip
  let copy' = record p.copy { addrs = update p.copy.addrs i addr }
  store_inode ip (record p { copy = copy' })

-- The entry `i` of `ip->addrs`, allocated if there is none.
unfoldable pub direct : ℕ → ℕ → M ℕ
unfolding load set_addr
direct ip i = do
  p ← load ip
  if p.addrs i == 0 then (do addr ← balloc; set_addr ip i addr; pure addr) else pure (p.addrs i)

-- The entry `bn` of the indirect block, allocated if there is none.
unfoldable pub indirect : ℕ → ℕ → M ℕ
unfolding read_block write_block
indirect block bn = do
  a ← read_block block
  if get_word a bn == 0
      then (do addr ← balloc; write_block block (set_word a bn addr); pure addr)
      else pure (get_word a bn)

unfoldable pub bmap : ℕ → ℕ → M ℕ
unfolding direct indirect
bmap ip bn =
    if ltb bn ndirect
    then direct ip bn
    else if ltb (bn - ndirect) nindirect
    then (do block ← direct ip ndirect; indirect block (bn - ndirect))
    else fail "bmap: out of range"

-- T_DEV (stat.h) and NDEV (param.h).
abbrev pub t_dev : ℕ
t_dev = 3

abbrev pub ndev : ℕ
ndev = 10

-- A read function of `devsw`: it fills the bytes at `dst` and returns their number, or -1 as `none`.
abbrev pub DeviceRead : Type 0
DeviceRead = ℕ → (ℕ → ℕ) → ℕ → M (Option (ℕ × (ℕ → ℕ)))

-- `memmove(dst + tot, bp->data + at, m)`; the two do not overlap.
abbrev pub copy_in : (ℕ → ℕ) → ℕ → Block → ℕ → ℕ → ℕ → ℕ
copy_in dst tot bytes at m j =
    if leb tot j && ltb j (tot + m) then bytes (at + (j - tot)) else dst j

-- The loop of `readi`, with fuel: each round reads one byte at least.
unfoldable pub readi_loop : ℕ → ℕ → ℕ → ℕ → ℕ → (ℕ → ℕ) → M (ℕ → ℕ)
unfolding bmap read_block
readi_loop zero ip tot off n dst = pure dst
readi_loop (suc fuel) ip tot off n dst =
    let m = min (n - tot) (block_size - off % block_size) in
    if ltb tot n
    then (do
      addr ← bmap ip (off / block_size)
      b ← read_block addr
      readi_loop fuel ip (tot + m) (off + m) n (copy_in dst tot b (off % block_size) m))
    else pure dst

-- `readi` returns the number of bytes and what `dst` then holds, and `none` for -1.  `off` and `n`
-- are 32-bit numbers, and so is their sum.
unfoldable pub readi : (ℕ → Option DeviceRead) → ℕ → (ℕ → ℕ) → ℕ → ℕ → M (Option (ℕ × (ℕ → ℕ)))
unfolding load readi_loop
readi devsw ip dst off n = do
  p ← load ip
  let end = (off + n) % 4294967296
  let count = if ltb p.size end then p.size - off else n
  if p.type == t_dev
      then (if ltb p.major ndev
          then elim (devsw p.major) [ some read ↦ read ip dst n | none ↦ pure none ]
          else pure none)
      else (if ltb p.size off || ltb end off
          then pure none
          else (do dst' ← readi_loop count ip 0 off count dst; pure (some (count, dst'))))
