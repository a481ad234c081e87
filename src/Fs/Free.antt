-- ===== src/Fs/Free.antt =====
-- fs.c: `itrunc`, `iput` and `iunlockput`.
use zv.Prelude.{ℕ, zero, suc, ◌-◌, true, false, ◌&&◌, ◌==◌, if◌then◌else◌, Option}
use zv.Block.{Block, get_word}
use zv.Fs.{M, pure, fail, ◌>>=◌, ◌>>◌, ndirect, nindirect, read_block}
use zv.Fs.Bitmap.Defs.{bfree}
use zv.Fs.Content.{load, store_inode, set_addr, DeviceRead}
use zv.Fs.Icache.{iunlock}
use zv.Fs.Update.{iupdate}

-- The first loop of `itrunc`, with `k` entries left.
unfoldable pub free_direct : ℕ → ℕ → ℕ → M (Unit {0})
unfolding load set_addr bfree
free_direct zero i ip = pure tt
free_direct (suc k) i ip =
    let more = free_direct k (suc i) ip in
    (do p ← load ip; if p.addrs i == 0 then more else (do bfree (p.addrs i); set_addr ip i 0; more))

-- The loop over the entries of the indirect block.
unfoldable pub free_indirect : ℕ → ℕ → Block → M (Unit {0})
unfolding bfree
free_indirect zero j a = pure tt
free_indirect (suc k) j a =
    let more = free_indirect k (suc j) a in
    if get_word a j == 0 then more else (do bfree (get_word a j); more)

-- The indirect block with all that it names.
unfoldable pub free_table : ℕ → M (Unit {0})
unfolding load set_addr read_block free_indirect bfree
free_table ip = do
  p ← load ip
  if p.addrs ndirect == 0 then pure tt else (do
    a ← read_block (p.addrs ndirect)
    free_indirect nindirect 0 a
    bfree (p.addrs ndirect)
    set_addr ip ndirect 0)

-- `ip->size = size`.
unfoldable pub set_size : ℕ → ℕ → M (Unit {0})
unfolding load store_inode
set_size ip size = do
  p ← load ip
  let copy' = record p.copy { size = size }
  store_inode ip (record p { copy = copy' })

unfoldable pub itrunc : (ℕ → Option DeviceRead) → ℕ → M (Unit {0})
unfolding free_direct free_table set_size iupdate
itrunc devsw ip = do free_direct ndirect 0 ip; free_table ip; set_size ip 0; iupdate devsw ip

-- The inode has no links: it is truncated and freed.
unfoldable pub free_inode : (ℕ → Option DeviceRead) → ℕ → M (Unit {0})
unfolding load store_inode itrunc iupdate
free_inode devsw ip = do
  p ← load ip
  store_inode ip (record p { busy = true })
  itrunc devsw ip
  q ← load ip
  let copy' = record q.copy { type = 0 }
  store_inode ip (record q { copy = copy' })
  iupdate devsw ip
  r ← load ip
  store_inode ip (record r { busy = false; valid = false })

-- `ip->ref--`.
unfoldable pub drop_ref : ℕ → M (Unit {0})
unfolding load store_inode
drop_ref ip = do p ← load ip; store_inode ip (record p { ref = p.ref - 1 })

unfoldable pub iput : (ℕ → Option DeviceRead) → ℕ → M (Unit {0})
unfolding load free_inode drop_ref
iput devsw ip = do
  p ← load ip
  if p.ref == 1 && p.valid && p.nlink == 0
      then (if p.busy then fail "iput busy" else (do free_inode devsw ip; drop_ref ip))
      else drop_ref ip

unfoldable pub iunlockput : (ℕ → Option DeviceRead) → ℕ → M (Unit {0})
unfolding iunlock iput
iunlockput devsw ip = do iunlock ip; iput devsw ip
