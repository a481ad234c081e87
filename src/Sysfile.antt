-- ===== src/Sysfile.antt =====
-- sysfile.c: the calls on open files.  The arguments lie on the stack of the process.
pub mod Refs
pub mod Close
pub mod Keeps
pub mod Opened
pub mod Keeping
pub mod Linking
pub mod Making
pub mod Session
pub mod Paths
pub mod Create
pub mod Open
pub mod Link
pub mod Ditto
pub mod Calls
pub mod Faults
mod Examples
use zv.Prelude.{
  ℕ, zero, suc, ◌+◌, ◌-◌, Bool, true, false, ◌==◌, ltb, leb, if◌then◌else◌, List, [], ◌∷◌, Option,
  none, some, get_elem?, set, ok, panic, ℤ, pos, negsuc, to_int, to_uint,
}
use zv.Strings.{Memory}
use zv.Syscall.{User, argint, argptr}
use zv.Fs.Namex.{Env}
use zv.Files.{Kernel, K, pure, ◌>>=◌, ◌>>◌, filedup, fileclose}
use zv.Files.Io.{Stat, filestat, fileread, Write, count, blocked, filewrite}

-- NOFILE.
abbrev pub nofile : ℕ
nofile = 16

-- A query of the process's memory.
unfoldable pub ask {ℓ} : {A : Type ℓ} → (User → A) → K A
ask q s = ok (q s.user, s)

-- `proc->ofile[fd]`.
abbrev pub file_at : List (Option ℕ) → ℕ → Option ℕ
file_at ofile fd = elim (get_elem? ofile fd) [ some o ↦ o | none ↦ none ]

-- The descriptor and its file; `none` for -1 and -2.
unfoldable pub argfd : ℕ → K (Option (ℕ × ℕ))
unfolding argint
argfd n s = elim (argint s.user n) [
  | none ↦ ok (none, s)
  | some fd ↦
      if ltb fd nofile
      then elim (file_at s.ofile fd) [ none ↦ ok (none, s) | some f ↦ ok (some (fd, f), s) ]
      else ok (none, s)
]

-- `proc->ofile[fd] = f`, where `none` is 0.
abbrev pub set_fd : ℕ → Option ℕ → K (Unit {0})
set_fd fd f s = ok (tt, record s { ofile = set s.ofile fd f })

-- The loop of `fdalloc`: the first free descriptor from `fd` on.
unfoldable pub find_fd : ℕ → List (Option ℕ) → Option ℕ
find_fd fd [] = none
find_fd fd (some f ∷ os) = find_fd (suc fd) os
find_fd fd (none ∷ os) = some fd

unfoldable pub fdalloc : ℕ → K (Option ℕ)
unfolding find_fd
fdalloc f s = elim (find_fd 0 s.ofile) [
  | none ↦ ok (none, s)
  | some fd ↦ ok (some fd, record s { ofile = set s.ofile fd (some f) })
]

unfoldable pub sys_dup : K ℤ
unfolding argfd fdalloc filedup
sys_dup = do
  a ← argfd 0
  elim a [
    | none ↦ pure (negsuc 0)
    | some (old, f) ↦ do
      fd ← fdalloc f
      elim fd [ none ↦ pure (negsuc 0) | some n ↦ do g ← filedup f; pure (pos n) ]
  ]

-- The memory from `p` on.
abbrev pub buffer : User → ℕ → ℕ → ℕ
buffer u p i = u.memory (p + i)

abbrev pub write_buffer : ℕ → (ℕ → ℕ) → K (Unit {0})
write_buffer p out s =
    let u : User = s.user in
    let u' : User = record u { memory = λ a. if leb p a then out (a - p) else u.memory a } in
    ok (tt, record s { user = u' })

-- The arguments of `sys_read` and `sys_write`: the file, the address and the number of bytes.
unfoldable pub io_args : K (Option (ℕ × ℕ × ℕ))
unfolding argfd argint argptr
io_args = do
  a ← argfd 0
  elim a [
    | none ↦ pure none
    | some (fd, f) ↦ do
      n ← ask (λ u. argint u 2)
      elim n [
        | none ↦ pure none
        | some len ↦ do
          p ← ask (λ u. argptr u 1 len)
          elim p [ none ↦ pure none | some at ↦ pure (some (f, at, len)) ]
      ]
  ]

unfoldable pub sys_read : Env → K ℤ
unfolding io_args fileread
sys_read env = do
  a ← io_args
  elim a [
    | none ↦ pure (negsuc 0)
    | some (f, p, n) ↦ do
      mine ← ask (λ u. buffer u p)
      r ← fileread env f (to_int n) mine
      write_buffer p r.1
      pure r.0
  ]

unfoldable pub sys_write : Env → K Write
unfolding io_args filewrite
sys_write env = do
  a ← io_args
  elim a [
    | none ↦ pure (count (negsuc 0))
    | some (f, p, n) ↦ do mine ← ask (λ u. buffer u p); filewrite env f (to_int n) mine
  ]

unfoldable pub sys_close : Env → K ℤ
unfolding argfd fileclose
sys_close env = do
  a ← argfd 0
  elim a [
    | none ↦ pure (negsuc 0)
    | some (fd, f) ↦ do set_fd fd none; fileclose env f; pure (pos 0)
  ]

-- sizeof(struct stat).
abbrev pub stat_size : ℕ
stat_size = 28

-- The result, and the `struct stat` that is written, with its address.
unfoldable pub sys_fstat : Env → K (ℤ × Option (ℕ × Option Stat))
unfolding argfd argptr filestat
sys_fstat env = do
  a ← argfd 0
  elim a [
    | none ↦ pure (negsuc 0, none)
    | some (fd, f) ↦ do
      p ← ask (λ u. argptr u 1 stat_size)
      elim p [
        | none ↦ pure (negsuc 0, none)
        | some at ↦ do r ← filestat env f; pure (r.0, some (at, r.1))
      ]
  ]
