-- ===== src/Fs/Writing.antt =====
-- fs.c: `writei_ext` and `writei`.
pub mod Loop
pub mod Reread
use zv.Prelude.{
  ℕ, zero, suc, ◌+◌, ◌-◌, ◌*◌, ◌/◌, ◌%◌, Bool, true, false, ◌&&◌, ◌||◌, ◌==◌, ltb, if◌then◌else◌,
  min, Option, none, some, ok, panic, waits,
}
use zv.Block.{block_size}
use zv.Fs.{Inode, Dinode, Fs, M, pure, fail, ◌>>=◌, ◌>>◌, max_file, read_block, write_block}
use zv.Fs.Content.{load, bmap, copy_in, t_dev, ndev, DeviceRead}
use zv.Fs.Icache.{iget, iunlock}
use zv.Fs.Ilock.{ilock_ext}
use zv.Fs.Update.{t_ditto, iupdate_ext}
use zv.Fs.Free.{set_size}

-- A write function of `devsw`: it returns the number of bytes written, or -1 as `none`.
abbrev pub DeviceWrite : Type 0
DeviceWrite = ℕ → (ℕ → ℕ) → ℕ → M (Option ℕ)

-- `devsw`.
pub record Devsw : Type 0 where
  pub reads : ℕ → Option DeviceRead
  pub writes : ℕ → Option DeviceWrite

-- The loop of `writei_ext`, with fuel: each round writes one byte at least.  It returns the last `off`.
unfoldable pub writei_loop : ℕ → ℕ → (ℕ → ℕ) → ℕ → ℕ → ℕ → M ℕ
unfolding bmap read_block write_block
writei_loop zero ip src tot off n = pure off
writei_loop (suc fuel) ip src tot off n =
    let m = min (n - tot) (block_size - off % block_size) in
    if ltb tot n
    then (do
      addr ← bmap ip (off / block_size)
      b ← read_block addr
      write_block addr (copy_in b (off % block_size) src tot m)
      writei_loop fuel ip src (tot + m) (off + m) n)
    else pure off

-- The same bytes for a ditto inode, if there is one; `write` is `writei`.
unfoldable pub write_child : Devsw → (ℕ → M (Option ℕ)) → ℕ → M (Unit {0})
unfolding iget ilock_ext iunlock
write_child dev write inum =
    if inum == 0
    then pure tt
    else (do ci ← iget inum; r ← ilock_ext 1 dev.reads ci false; w ← write ci; iunlock ci)

-- After the loop: a ditto inode is left to its parent; another gets its new size and is written.
unfoldable pub grow : Devsw → ℕ → ℕ → ℕ → Bool → M (Option ℕ)
unfolding load set_size iupdate_ext
grow dev ip off n skip = do
  p ← load ip
  if p.type == t_ditto then pure (some n) else (do
    set_size ip (if ltb 0 n && ltb p.size off then off else p.size)
    iupdate_ext dev.reads ip skip
    pure (some n))

-- `writei_ext` on fuel for the ditto inodes of ditto inodes; the result is `none` for -1.  `off` and
-- `n` are 32-bit numbers, and so is their sum.
unfoldable pub writei_ext : ℕ → Devsw → ℕ → (ℕ → ℕ) → ℕ → ℕ → Bool → M (Option ℕ)
unfolding load writei_loop write_child grow
writei_ext zero dev ip src off n skip = λ s. waits
writei_ext (suc fuel) dev ip src off n skip =
    let write = λ (c : ℕ). writei_ext fuel dev c src off n false in
    (do
      p ← load ip
      let end = (off + n) % 4294967296
      if p.type == t_dev
          then (if ltb p.major ndev
              then elim (dev.writes p.major) [ some w ↦ w ip src n | none ↦ pure none ]
              else pure none)
          else (if ltb p.size off || ltb end off || ltb (max_file * block_size) end
              then pure none
              else (do
                off' ← writei_loop n ip src 0 off n
                q ← load ip
                (if skip then pure tt else write_child dev write q.child1)
                r ← load ip
                (if skip then pure tt else write_child dev write r.child2)
                grow dev ip off' n skip)))

unfoldable pub writei : ℕ → Devsw → ℕ → (ℕ → ℕ) → ℕ → ℕ → M (Option ℕ)
unfolding writei_ext
writei fuel dev ip src off n = writei_ext fuel dev ip src off n false
