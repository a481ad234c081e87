-- ===== src/Sysfile/Create.antt =====
-- sysfile.c: `create`.
use zv.Prelude.{
  ℕ, ◌+◌, ◌%◌, true, ◌&&◌, ◌==◌, ltb, if◌then◌else◌, Option, none, some, ok, panic, waits, ℤ, pos,
  negsuc,
}
use zv.Fs.{Dinode, M}
use zv.Fs.Content.{load, store_inode}
use zv.Fs.Ilock.{ilock_ext}
use zv.Fs.Update.{t_ditto, ialloc, iupdate}
use zv.Fs.Free.{iunlockput}
use zv.Fs.Directory.{t_dir, dirlookup, dirlink}
use zv.Fs.Namex.{Env}
use zv.Files.{K, pure, fail, ◌>>=◌, ◌>>◌, lift}
use zv.Sysfile.Paths.{nameiparent, dot, dot_dot, distance_to_root}

-- T_FILE.
abbrev pub t_file : ℕ
t_file = 2

-- DITTO_LOWER and DITTO_HIGHER (fs.h).
abbrev pub ditto_lower : ℕ
ditto_lower = 3

abbrev pub ditto_higher : ℕ
ditto_higher = 6

-- `ilock(ip)`.
abbrev pub ilock : Env → ℕ → K ℤ
unfolding ilock_ext
ilock env ip = lift (ilock_ext env.depth env.dev.reads ip true)

-- An assignment to fields of `*ip`.
unfoldable pub modify_inode : ℕ → (Dinode → Dinode) → M (Unit {0})
unfolding load store_inode
modify_inode ip f s = elim (load ip s) [
  | ok (p, t) ↦ store_inode ip (record p { copy = f p.copy }) t
  | panic e ↦ panic e
  | waits ↦ waits
]

-- `ialloc(dp->dev, T_DITTO)`, and the inode number of the new inode as a short.
unfoldable pub new_ditto : K ℕ
unfolding ialloc load
new_ditto = do c ← lift (ialloc t_ditto); p ← lift (load c); pure (p.inum % 65536)

-- The ditto inodes of a directory at that distance from the root.
unfoldable pub make_dittos : ℕ → ℕ → K (Unit {0})
unfolding new_ditto modify_inode
make_dittos ip dtr =
    if ltb dtr ditto_lower
    then (do
      c1 ← new_ditto
      c2 ← new_ditto
      lift (modify_inode ip (λ d. record d { child1 = c1; child2 = c2 })))
    else if ltb dtr ditto_higher
    then (do c1 ← new_ditto; lift (modify_inode ip (λ d. record d { child1 = c1 })))
    else pure tt

-- The entries "." and ".." of the new directory `ip` in `dp`.
unfoldable pub make_dots : Env → ℕ → ℕ → K (Unit {0})
unfolding modify_inode iupdate load dirlink
make_dots env dp ip = do
  lift (modify_inode dp (λ d. record d { nlink = (d.nlink + 1) % 65536 }))
  lift (iupdate env.dev.reads dp)
  p ← lift (load ip)
  q ← lift (load dp)
  a ← lift (dirlink env.depth env.dev ip dot p.inum)
  elim a [
    | negsuc k ↦ fail "create dots"
    | pos k ↦ do
      b ← lift (dirlink env.depth env.dev ip dot_dot q.inum)
      elim b [ negsuc j ↦ fail "create dots" | pos j ↦ pure tt ]
  ]

-- There is no entry of that name: a new inode, and its entry in `dp`.
unfoldable pub create_new : Env → ℕ → ℕ → (ℕ → ℕ) → ℕ → ℕ → ℕ → K ℕ
unfolding ialloc ilock_ext modify_inode make_dittos iupdate make_dots load dirlink iunlockput
create_new env dtr dp name type major minor = do
  ip ← lift (ialloc type)
  r ← ilock env ip
  lift (modify_inode ip (λ d. record d { major = major; minor = minor; nlink = 1 }))
  (if type == t_dir && ltb dtr ditto_higher then make_dittos ip dtr else pure tt)
  lift (iupdate env.dev.reads ip)
  (if type == t_dir then make_dots env dp ip else pure tt)
  p ← lift (load ip)
  a ← lift (dirlink env.depth env.dev dp name p.inum)
  elim a [
    | negsuc k ↦ fail "create: dirlink"
    | pos k ↦ do lift (iunlockput env.dev.reads dp); pure ip
  ]

-- There is one: it serves if both are files.
unfoldable pub create_found : Env → ℕ → ℕ → ℕ → K (Option ℕ)
unfolding iunlockput ilock_ext load
create_found env dp ip type = do
  lift (iunlockput env.dev.reads dp)
  r ← ilock env ip
  p ← lift (load ip)
  if type == t_file && p.type == t_file
      then pure (some ip)
      else (do lift (iunlockput env.dev.reads ip); pure none)

-- The inode is locked.
unfoldable pub create : Env → ℕ → ℕ → ℕ → ℕ → K (Option ℕ)
unfolding distance_to_root nameiparent ilock_ext dirlookup create_found create_new
create env path type major minor = do
  dtr ← distance_to_root env path
  found ← nameiparent env true path
  elim found [
    | none ↦ pure none
    | some (dp, name) ↦ do
      r ← ilock env dp
      there ← lift (dirlookup env.dev dp name)
      elim there [
        | some (ip, off) ↦ create_found env dp ip type
        | none ↦ do ip ← create_new env dtr dp name type major minor; pure (some ip)
      ]
  ]
