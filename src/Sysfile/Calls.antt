-- ===== src/Sysfile/Calls.antt =====
-- sysfile.c: `sys_mkdir`, `sys_mknod`, `sys_chdir`, `sys_pipe` and the arguments of `sys_exec`.
use zv.Prelude.{
  ℕ, zero, suc, ◌+◌, ◌*◌, ◌%◌, true, not, ◌==◌, if◌then◌else◌, List, [], ◌∷◌, Option, none, some,
  ok, ℤ, pos, negsuc,
}
use zv.Strings.{store_word}
use zv.Syscall.{User, uint_mod, fetchint, fetchstr, argint, argstr, argptr}
use zv.Fs.Content.{load, t_dev}
use zv.Fs.Icache.{iunlock}
use zv.Fs.Ilock.{ilock_ext, e_corrupted}
use zv.Fs.Trans.{begin_op, commit_op}
use zv.Fs.Free.{iput, iunlockput}
use zv.Fs.Directory.{t_dir}
use zv.Fs.Namex.{Env}
use zv.Files.{K, pure, ◌>>=◌, ◌>>◌, lift, fileclose}
use zv.Files.Io.{is_corrupted}
use zv.Files.Pipes.{pipealloc}
use zv.Sysfile.{ask, set_fd, fdalloc}
use zv.Sysfile.Paths.{namei}
use zv.Sysfile.Create.{ilock, create}

-- What follows `create` in `sys_mkdir` and `sys_mknod`.
unfoldable pub finish_make : Env → Option ℕ → K ℤ
unfolding commit_op iunlockput
finish_make env none = do lift commit_op; pure (negsuc 0)
finish_make env (some ip) = do lift (iunlockput env.dev.reads ip); lift commit_op; pure (pos 0)

unfoldable pub sys_mkdir : Env → K ℤ
unfolding begin_op argstr create finish_make
sys_mkdir env = do
  lift begin_op
  a ← ask (λ u. argstr u 0)
  elim a [
    | none ↦ finish_make env none
    | some (path, len) ↦ do made ← create env path t_dir 0 0; finish_make env made
  ]

unfoldable pub sys_mknod : Env → K ℤ
unfolding begin_op argstr argint create finish_make
sys_mknod env = do
  lift begin_op
  a ← ask (λ u. argstr u 0)
  major ← ask (λ u. argint u 1)
  minor ← ask (λ u. argint u 2)
  elim a [
    | none ↦ finish_make env none
    | some (path, len) ↦ elim major [
      | none ↦ finish_make env none
      | some x ↦ elim minor [
        | none ↦ finish_make env none
        | some y ↦ do made ← create env path t_dev (x % 65536) (y % 65536); finish_make env made
      ]
    ]
  ]

-- `proc->cwd = ip`.
abbrev pub set_cwd : ℕ → K (Unit {0})
set_cwd ip s = ok (tt, record s { cwd = ip })

unfoldable pub chdir : Env → ℕ → K ℤ
unfolding namei ilock_ext load iunlockput iunlock iput
chdir env path = do
  found ← namei env true path
  elim found [
    | none ↦ pure (negsuc 0)
    | some ip ↦ do
      r ← ilock env ip
      if is_corrupted r then pure e_corrupted else (do
        p ← lift (load ip)
        if not (p.type == t_dir)
            then (do lift (iunlockput env.dev.reads ip); pure (negsuc 0))
            else (do
              lift (iunlock ip)
              cwd ← (λ s. ok (s.cwd, s))
              lift (iput env.dev.reads cwd)
              set_cwd ip
              pure (pos 0)))
  ]

unfoldable pub sys_chdir : Env → K ℤ
unfolding argstr chdir
sys_chdir env = do
  a ← ask (λ u. argstr u 0)
  elim a [ none ↦ pure (negsuc 0) | some (path, len) ↦ chdir env path ]

-- `fd[0] = fd0` and `fd[1] = fd1`.
unfoldable pub write_pair : ℕ → ℕ → ℕ → K (Unit {0})
unfolding store_word
write_pair p fd0 fd1 s =
    let u : User = s.user in
    let u' : User = record u { memory = store_word (p + 4) fd1 (store_word p fd0 u.memory) } in
    ok (tt, record s { user = u' })

-- Descriptors for the two ends, or neither.
unfoldable pub pipe_fds : Env → ℕ → ℕ → K (Option (ℕ × ℕ))
unfolding fdalloc fileclose
pipe_fds env rf wf = do
  a ← fdalloc rf
  elim a [
    | none ↦ do fileclose env rf; fileclose env wf; pure none
    | some fd0 ↦ do
      b ← fdalloc wf
      elim b [
        | none ↦ do set_fd fd0 none; fileclose env rf; fileclose env wf; pure none
        | some fd1 ↦ pure (some (fd0, fd1))
      ]
  ]

unfoldable pub sys_pipe : Env → K ℤ
unfolding argptr pipealloc pipe_fds write_pair
sys_pipe env = do
  p ← ask (λ u. argptr u 0 8)
  elim p [
    | none ↦ pure (negsuc 0)
    | some at ↦ do
      ends ← pipealloc env
      elim ends [
        | none ↦ pure (negsuc 0)
        | some (rf, wf) ↦ do
          fds ← pipe_fds env rf wf
          elim fds [
            | none ↦ pure (negsuc 0)
            | some (fd0, fd1) ↦ do write_pair at fd0 fd1; pure (pos 0)
          ]
      ]
  ]

-- MAXARG.
abbrev pub max_args : ℕ
max_args = 32

-- The loop of `sys_exec`, with room for `k` arguments: the addresses of the strings.
unfoldable pub exec_loop : ℕ → User → ℕ → ℕ → Option (List ℕ)
unfolding fetchint fetchstr
exec_loop zero u uargv i = none
exec_loop (suc k) u uargv i =
    let more = exec_loop k u uargv (suc i) in
    elim (fetchint u ((uargv + 4 * i) % uint_mod)) [
      | none ↦ none
      | some uarg ↦ if uarg == 0 then some [] else elim (fetchstr u uarg) [
        | none ↦ none
        | some len ↦ elim more [ none ↦ none | some argv ↦ some (uarg ∷ argv) ]
      ]
    ]

-- What `sys_exec` gives to `exec`: the path and the arguments.
unfoldable pub exec_args : User → Option (ℕ × List ℕ)
unfolding argstr argint exec_loop
exec_args u = elim (argstr u 0) [
  | none ↦ none
  | some (path, len) ↦ elim (argint u 1) [
    | none ↦ none
    | some uargv ↦ elim (exec_loop max_args u uargv 0) [
      | none ↦ none
      | some argv ↦ some (path, argv)
    ]
  ]
]
