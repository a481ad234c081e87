-- ===== src/Sysfile/Open.antt =====
-- sysfile.c: `sys_open`, `sys_forceopen`, `sys_iopen` and `sys_ichecksum`.
use zv.Prelude.{
  ℕ, ◌/◌, ◌%◌, Bool, true, false, ◌&&◌, ◌||◌, not, ◌==◌, if◌then◌else◌, Option, none, some, ℤ, pos,
  negsuc, to_uint,
}
use zv.Syscall.{argint, argstr}
use zv.Fs.Content.{load}
use zv.Fs.Icache.{iget, iunlock}
use zv.Fs.Ilock.{ilock_ext, ichecksum, e_corrupted}
use zv.Fs.Trans.{begin_op, commit_op}
use zv.Fs.Free.{iunlockput}
use zv.Fs.Rescue.{ilock_trans}
use zv.Fs.Directory.{t_dir, is_zero}
use zv.Fs.Namex.{Env}
use zv.Files.{fd_inode, K, pure, ◌>>=◌, ◌>>◌, lift, load_file, store_file, filealloc, fileclose}
use zv.Files.Io.{is_corrupted}
use zv.Sysfile.{ask, set_fd, fdalloc}
use zv.Sysfile.Paths.{namei}
use zv.Sysfile.Create.{t_file, create}

-- O_RDONLY is 0; the bits O_WRONLY, O_RDWR and O_CREATE of a mode.
abbrev pub wants_write : ℕ → Bool
wants_write omode = omode % 2 == 1

abbrev pub wants_both : ℕ → Bool
wants_both omode = omode / 2 % 2 == 1

abbrev pub wants_create : ℕ → Bool
wants_create omode = omode / 512 % 2 == 1

-- A file and a descriptor for it, or neither, and then the inode is given back.
unfoldable pub alloc_fd : Env → ℕ → K (Option (ℕ × ℕ))
unfolding filealloc fdalloc fileclose iunlockput
alloc_fd env ip = do
  a ← filealloc
  elim a [
    | none ↦ do lift (iunlockput env.dev.reads ip); pure none
    | some f ↦ do
      d ← fdalloc f
      elim d [
        | none ↦ do fileclose env f; lift (iunlockput env.dev.reads ip); pure none
        | some fd ↦ pure (some (fd, f))
      ]
  ]

-- The fields of the new file.
unfoldable pub set_inode_file : ℕ → ℕ → ℕ → K (Unit {0})
unfolding load_file store_file
set_inode_file f ip omode = do
  p ← load_file f
  store_file f (record p {
    type = fd_inode;
    ip = ip;
    off = 0;
    readable = not (wants_write omode);
    writable = wants_write omode || wants_both omode;
  })

-- The inode `ip` is locked; `error` is what a full table yields.
unfoldable pub finish_open : Env → ℕ → ℕ → ℤ → K ℤ
unfolding alloc_fd iunlock set_inode_file
finish_open env ip omode error = do
  a ← alloc_fd env ip
  elim a [
    | none ↦ pure error
    | some (fd, f) ↦ do lift (iunlock ip); set_inode_file f ip omode; pure (pos fd)
  ]

-- A directory is opened for reading only; `ip` is locked.
unfoldable pub open_locked : Env → ℕ → ℕ → K ℤ
unfolding load iunlockput finish_open
open_locked env ip omode = do
  p ← lift (load ip)
  if p.type == t_dir && not (omode == 0)
      then (do lift (iunlockput env.dev.reads ip); pure (negsuc 0))
      else finish_open env ip omode (negsuc 0)

unfoldable pub open_new : Env → ℕ → ℕ → K ℤ
unfolding begin_op create commit_op finish_open
open_new env path omode = do
  lift begin_op
  made ← create env path t_file 1 0
  lift commit_op
  elim made [ none ↦ pure (negsuc 0) | some ip ↦ finish_open env ip omode (negsuc 0) ]

-- The path and the mode that `sys_open` and `sys_forceopen` are given.
unfoldable pub open_args : K (Option (ℕ × ℕ))
unfolding argstr argint
open_args = do
  a ← ask (λ u. argstr u 0)
  elim a [
    | none ↦ pure none
    | some (path, len) ↦ do
      m ← ask (λ u. argint u 1)
      elim m [ none ↦ pure none | some omode ↦ pure (some (path, omode)) ]
  ]

unfoldable pub sys_open : Env → K ℤ
unfolding open_args open_new namei ilock_trans open_locked
sys_open env = do
  a ← open_args
  elim a [
    | none ↦ pure (negsuc 0)
    | some (path, omode) ↦ if wants_create omode then open_new env path omode else (do
      found ← namei env true path
      elim found [
        | none ↦ pure (negsuc 0)
        | some ip ↦ do
          r ← lift (ilock_trans env.depth env.dev ip)
          if is_corrupted r then pure e_corrupted else open_locked env ip omode
      ])
  ]

-- The checksum of the inode is not verified.
unfoldable pub sys_forceopen : Env → K ℤ
unfolding open_args open_new namei ilock_ext open_locked
sys_forceopen env = do
  a ← open_args
  elim a [
    | none ↦ pure (negsuc 0)
    | some (path, omode) ↦ if wants_create omode then open_new env path omode else (do
      found ← namei env true path
      elim found [
        | none ↦ pure (negsuc 0)
        | some ip ↦ do
          r ← lift (ilock_ext env.depth env.dev.reads ip false)
          open_locked env ip omode
      ])
  ]

-- The device, of which there is one, and the inode number.
unfoldable pub inode_args : K (Option (ℕ × ℕ))
unfolding argint
inode_args = do
  a ← ask (λ u. argint u 0)
  elim a [
    | none ↦ pure none
    | some dev ↦ do
      i ← ask (λ u. argint u 1)
      elim i [ none ↦ pure none | some inum ↦ pure (some (dev, inum)) ]
  ]

unfoldable pub sys_iopen : Env → K ℤ
unfolding inode_args iget ilock_trans finish_open
sys_iopen env = do
  a ← inode_args
  elim a [
    | none ↦ pure (negsuc 0)
    | some (dev, inum) ↦ do
      ip ← lift (iget inum)
      r ← lift (ilock_trans env.depth env.dev ip)
      if is_corrupted r
          then pure e_corrupted
          else (if is_zero r then finish_open env ip 0 (negsuc 2) else pure (negsuc 3))
  ]

-- The result is a uint.
unfoldable pub sys_ichecksum : Env → K ℕ
unfolding inode_args iget ilock_trans alloc_fd ichecksum iunlock set_inode_file fileclose
sys_ichecksum env = do
  a ← inode_args
  elim a [
    | none ↦ pure (to_uint (negsuc 0))
    | some (dev, inum) ↦ do
      ip ← lift (iget inum)
      r ← lift (ilock_trans env.depth env.dev ip)
      if is_corrupted r then pure (to_uint e_corrupted) else (do
        b ← alloc_fd env ip
        elim b [
          | none ↦ pure (to_uint (negsuc 2))
          | some (fd, f) ↦ do
            sum ← lift (ichecksum env.dev.reads ip)
            lift (iunlock ip)
            set_inode_file f ip 0
            set_fd fd none
            fileclose env f
            pure sum
        ])
  ]
