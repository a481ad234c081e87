-- ===== src/Fs/Icache.antt =====
-- fs.c: the references to the inode cache, `iget`, `idup` and `iunlock`.  The spinlock makes each call
-- one step.  A reference count is taken as a number that does not overflow.
pub mod Refs
pub mod Get
use zv.Prelude.{
  ℕ, zero, suc, ◌+◌, ◌-◌, Bool, true, false, ◌&&◌, not, ◌==◌, ltb, if◌then◌else◌, List, [], ◌∷◌,
  Option, none, some, get_elem?, set, ok, panic,
}
use zv.Fs.{Inode, Dinode, Fs, M, pure, fail, ◌>>=◌, ◌>>◌}
use zv.Fs.Content.{load, store_inode}

-- What the loop of `iget` comes to: the entry of the inode, or the first free entry, if there is one.
pub data Scan : Type 0 where
  cached : ℕ → Scan
  missing : Option ℕ → Scan

abbrev pub remember : Option ℕ → Bool → ℕ → Option ℕ
remember (some e) free i = some e
remember none free i = if free then some i else none

unfoldable pub scan : ℕ → ℕ → Option ℕ → List Inode → Scan
scan inum i empty [] = missing empty
scan inum i empty (p ∷ ps) =
    if ltb 0 p.ref && p.inum == inum
    then cached i
    else scan inum (suc i) (remember empty (p.ref == 0) i) ps

-- `ip->ref++`.
unfoldable pub idup : ℕ → M ℕ
unfolding load store_inode
idup ip = do p ← load ip; store_inode ip (record p { ref = p.ref + 1 }); pure ip

-- The entry that `iget` makes; the fields that `ilock` will read keep what they held.
unfoldable pub reuse : ℕ → ℕ → M ℕ
unfolding load store_inode
reuse inum ip = do
  p ← load ip
  store_inode ip (record p { inum = inum; ref = 1; busy = false; valid = false })
  pure ip

unfoldable pub iget : ℕ → M ℕ
unfolding scan idup reuse
iget inum s = elim (scan inum 0 none s.icache) [
  | cached i ↦ idup i s
  | missing (some i) ↦ reuse inum i s
  | missing none ↦ panic "iget: no inodes"
]

unfoldable pub iunlock : ℕ → M (Unit {0})
unfolding load store_inode
iunlock ip = do
  p ← load ip
  if p.busy && ltb 0 p.ref then store_inode ip (record p { busy = false }) else fail "iunlock"
