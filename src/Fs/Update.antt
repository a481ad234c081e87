-- ===== src/Fs/Update.antt =====
-- fs.c: `ialloc`, `iupdate_ext` and `cupdate`, which write inodes to the disk.
pub mod Stored
use zv.Prelude.{ℕ, zero, suc, ◌-◌, ◌%◌, Bool, false, not, ◌==◌, if◌then◌else◌, Option}
use zv.Fs.{Dinode, M, pure, fail, ◌>>=◌, ◌>>◌, ipb, inode_block, read_block, write_block, readsb}
use zv.Fs.Image.{get_dinode, set_dinode}
use zv.Fs.Content.{load, store_inode, DeviceRead}
use zv.Fs.Icache.{iget, iunlock}
use zv.Fs.Ilock.{ichecksum, ilock_ext}

-- T_DITTO (stat.h).
abbrev pub t_ditto : ℕ
t_ditto = 4

-- A dinode of zeros, but for its type.
abbrev pub blank : ℕ → Dinode
blank type = record {
  type = type;
  major = 0;
  minor = 0;
  nlink = 0;
  size = 0;
  addrs = λ _. 0;
  child1 = 0;
  child2 = 0;
  checksum = 0;
}

-- The loop of `ialloc`, with `k` inodes left.
unfoldable pub ialloc_loop : ℕ → ℕ → ℕ → M ℕ
unfolding read_block write_block iget
ialloc_loop zero inum type = fail "ialloc: no inodes"
ialloc_loop (suc k) inum type =
    let more = ialloc_loop k (suc inum) type in
    (do
      b ← read_block (inode_block inum)
      if (get_dinode b (inum % ipb)).type == 0
          then (do
            write_block (inode_block inum) (set_dinode b (inum % ipb) (blank type))
            iget inum)
          else more)

unfoldable pub ialloc : ℕ → M ℕ
unfolding readsb ialloc_loop
ialloc type = do sb ← readsb; ialloc_loop (sb.ninodes - 1) 1 type

-- The ditto inode `ic` is written, with the size and the checksum of `ip`.
unfoldable pub cupdate : (ℕ → Option DeviceRead) → ℕ → ℕ → M (Unit {0})
unfolding ilock_ext load store_inode read_block write_block iunlock
cupdate devsw ip ic = do
  r ← ilock_ext 1 devsw ic false
  c ← load ic
  if not (c.type == t_ditto) then fail "trying to update a child that is not a ditto block" else (do
    b ← read_block (inode_block c.inum)
    p ← load ip
    let copy' = record c.copy { size = p.size; checksum = p.checksum }
    store_inode ic (record c { copy = copy' })
    write_block (inode_block c.inum) (set_dinode b (c.inum % ipb) (record copy' { nlink = 1 }))
    iunlock ic)

-- `if (inum) cupdate(ip, iget(ip->dev, inum))`.
unfoldable pub update_child : (ℕ → Option DeviceRead) → ℕ → ℕ → M (Unit {0})
unfolding iget cupdate
update_child devsw ip inum = if inum == 0 then pure tt else (do ic ← iget inum; cupdate devsw ip ic)

unfoldable pub iupdate_ext : (ℕ → Option DeviceRead) → ℕ → Bool → M (Unit {0})
unfolding load store_inode read_block write_block ichecksum update_child
iupdate_ext devsw ip skip = do
  p ← load ip
  b ← read_block (inode_block p.inum)
  sum ← ichecksum devsw ip
  q ← load ip
  let copy' = record q.copy { checksum = sum }
  store_inode ip (record q { copy = copy' })
  write_block (inode_block p.inum) (set_dinode b (p.inum % ipb) copy')
  if skip then pure tt else (do update_child devsw ip q.child1; update_child devsw ip q.child2)

unfoldable pub iupdate : (ℕ → Option DeviceRead) → ℕ → M (Unit {0})
unfolding iupdate_ext
iupdate devsw ip = iupdate_ext devsw ip false
