-- ===== src/Sysfile/Link.antt =====
-- sysfile.c: `sys_link` and `sys_unlink`.
use zv.Prelude.{
  ℕ, ◌+◌, ◌%◌, Bool, true, false, ◌||◌, not, ◌==◌, leb, if◌then◌else◌, none, some, ok, panic, waits,
  ℤ, pos, negsuc,
}
use zv.Syscall.{argstr}
use zv.Fs.{M}
use zv.Fs.Content.{load}
use zv.Fs.Icache.{iunlock}
use zv.Fs.Ilock.{ilock_ext}
use zv.Fs.Trans.{begin_op, commit_op}
use zv.Fs.Update.{iupdate}
use zv.Fs.Free.{iput, iunlockput}
use zv.Fs.Writing.{writei}
use zv.Fs.Rescue.{ilock_trans}
use zv.Fs.Directory.{t_dir, dirent_size, namecmp, is_zero, dirlookup, dirlink, isdirempty}
use zv.Fs.Namex.{Env}
use zv.Files.{K, pure, fail, ◌>>=◌, ◌>>◌, lift}
use zv.Sysfile.{ask}
use zv.Sysfile.Paths.{namei, nameiparent, dot, dot_dot}
use zv.Sysfile.Create.{modify_inode, ilock}

-- `ip->nlink++` and `ip->nlink--` of a short, and `iupdate(ip)`.
unfoldable pub more_links : Env → ℕ → M (Unit {0})
unfolding modify_inode iupdate
more_links env ip s = elim (modify_inode ip (λ d. record d { nlink = (d.nlink + 1) % 65536 }) s) [
  | ok (u, t) ↦ iupdate env.dev.reads ip t
  | panic e ↦ panic e
  | waits ↦ waits
]

unfoldable pub less_links : Env → ℕ → M (Unit {0})
unfolding modify_inode iupdate
less_links env ip s =
    elim (modify_inode ip (λ d. record d { nlink = (d.nlink + 65535) % 65536 }) s) [
      | ok (u, t) ↦ iupdate env.dev.reads ip t
      | panic e ↦ panic e
      | waits ↦ waits
    ]

-- From `bad` on: the link is taken back.
unfoldable pub undo_link : Env → ℕ → K ℤ
unfolding ilock_ext less_links iunlockput commit_op
undo_link env ip = do
  r ← ilock env ip
  lift (less_links env ip)
  lift (iunlockput env.dev.reads ip)
  lift commit_op
  pure (negsuc 0)

-- The new entry; there is one device.
unfoldable pub enter_link : Env → ℕ → ℕ → K ℤ
unfolding nameiparent ilock_ext load dirlink iunlockput undo_link iput commit_op
enter_link env ip new = do
  found ← nameiparent env false new
  elim found [
    | none ↦ undo_link env ip
    | some (dp, name) ↦ do
      r ← ilock env dp
      if not (is_zero r) then fail "sys_link" else (do
        p ← lift (load ip)
        a ← lift (dirlink env.depth env.dev dp name p.inum)
        lift (iunlockput env.dev.reads dp)
        elim a [
          | negsuc k ↦ undo_link env ip
          | pos k ↦ do lift (iput env.dev.reads ip); lift commit_op; pure (pos 0)
        ])
  ]

unfoldable pub link : Env → ℕ → ℕ → K ℤ
unfolding namei ilock_trans begin_op load iunlockput commit_op more_links iunlock enter_link
link env old new = do
  found ← namei env true old
  elim found [
    | none ↦ pure (negsuc 0)
    | some ip ↦ do
      r ← lift (ilock_trans env.depth env.dev ip)
      lift begin_op
      p ← lift (load ip)
      if p.type == t_dir
          then (do lift (iunlockput env.dev.reads ip); lift commit_op; pure (negsuc 0))
          else (do lift (more_links env ip); lift (iunlock ip); enter_link env ip new)
  ]

unfoldable pub sys_link : Env → K ℤ
unfolding argstr link
sys_link env = do
  a ← ask (λ u. argstr u 0)
  elim a [
    | none ↦ pure (negsuc 0)
    | some (old, n) ↦ do
      b ← ask (λ u. argstr u 1)
      elim b [ none ↦ pure (negsuc 0) | some (new, m) ↦ link env old new ]
  ]

-- From `bad` on.
unfoldable pub give_back : Env → ℕ → K ℤ
unfolding iunlockput commit_op
give_back env dp = do lift (iunlockput env.dev.reads dp); lift commit_op; pure (negsuc 0)

-- The entry at `off` of `dp` is cleared, and the inode `ip` loses a link.
unfoldable pub remove_entry : Env → ℕ → ℕ → ℕ → K ℤ
unfolding load writei less_links iunlockput commit_op
remove_entry env dp ip off = do
  w ← lift (writei env.depth env.dev dp (λ _. 0) off dirent_size)
  elim w [
    | none ↦ fail "unlink: writei"
    | some n ↦
        if n == dirent_size
        then (do
          p ← lift (load ip)
          (if p.type == t_dir then lift (less_links env dp) else pure tt)
          lift (iunlockput env.dev.reads dp)
          lift (less_links env ip)
          lift (iunlockput env.dev.reads ip)
          lift commit_op
          pure (pos 0))
        else fail "unlink: writei"
  ]

-- A count of links is a short.
abbrev pub no_links : ℕ → Bool
no_links nlink = nlink == 0 || leb 32768 nlink

-- The test of an inode of type T_DIR.
unfoldable pub is_kept : Env → ℕ → ℕ → K Bool
unfolding isdirempty
is_kept env ip type =
    if type == t_dir
    then (do empty ← lift (isdirempty env.dev ip); pure (not empty))
    else pure false

unfoldable pub unlink_found : Env → ℕ → ℕ → ℕ → K ℤ
unfolding ilock_ext load is_kept iunlockput give_back remove_entry
unlink_found env dp ip off = do
  r ← lift (ilock_ext env.depth env.dev.reads ip false)
  elim r [
    | negsuc k ↦ fail "sys_unlink"
    | pos k ↦ do
      p ← lift (load ip)
      if no_links p.nlink then fail "unlink: nlink < 1" else (do
        kept ← is_kept env ip p.type
        if kept
            then (do lift (iunlockput env.dev.reads ip); give_back env dp)
            else remove_entry env dp ip off)
  ]

unfoldable pub unlink : Env → ℕ → K ℤ
unfolding nameiparent begin_op ilock_ext namecmp give_back dirlookup unlink_found
unlink env path = do
  found ← nameiparent env true path
  elim found [
    | none ↦ pure (negsuc 0)
    | some (dp, name) ↦ do
      lift begin_op
      r ← ilock env dp
      elim r [
        | negsuc k ↦ fail "sys_unlink"
        | pos k ↦
            if is_zero (namecmp name dot) || is_zero (namecmp name dot_dot)
            then give_back env dp
            else (do
              there ← lift (dirlookup env.dev dp name)
              elim there [ none ↦ give_back env dp | some (ip, off) ↦ unlink_found env dp ip off ])
      ]
  ]

unfoldable pub sys_unlink : Env → K ℤ
unfolding argstr unlink
sys_unlink env = do
  a ← ask (λ u. argstr u 0)
  elim a [ none ↦ pure (negsuc 0) | some (path, n) ↦ unlink env path ]
