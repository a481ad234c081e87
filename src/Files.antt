-- ===== src/Files.antt =====
-- file.c: the table of open files, for one process that runs in the kernel.  The table's lock makes
-- each section under it one step.
pub mod Io
pub mod Pipes
pub mod Refs
pub mod Close
pub mod Alloc
use zv.Prelude.{
  ℕ, zero, suc, ◌+◌, ◌-◌, Bool, true, false, ◌==◌, ltb, if◌then◌else◌, List, [], ◌∷◌, Option, none,
  some, get_elem?, set, String, Result, ok, panic, waits, update,
}
use zv.Kalloc
use zv.Kalloc.{Kmem}
use zv.Pipe.{Pipe, pipeclose}
use zv.Fs.{Fs, M}
use zv.Fs.Trans.{begin_op, commit_op}
use zv.Fs.Free.{iput}
use zv.Fs.Namex.{Env}
use zv.Syscall.{User}

pub data FileType : Type 0 where
  fd_none : FileType
  fd_pipe : FileType
  fd_inode : FileType

-- `struct file`.  A pipe is the address of its page, an inode its index in the inode cache.
pub record File : Type 0 where
  pub type : FileType
  pub ref : ℕ
  pub readable : Bool
  pub writable : Bool
  pub pipe : ℕ
  pub ip : ℕ
  pub off : ℕ

-- The file system, `ftable.file`, the pipes by their pages, and of the process that runs its open
-- files, its directory, its memory and whether it is killed.
pub record Kernel : Type 0 where
  pub fs : Fs
  pub files : List File
  pub pipes : ℕ → Pipe
  pub kmem : Kmem
  pub ofile : List (Option ℕ)
  pub cwd : ℕ
  pub user : User
  pub killed : Bool

abbrev pub K {ℓ} : Type ℓ → Type ℓ
K A = Kernel → Result (A × Kernel)

abbrev pub pure {ℓ} : {A : Type ℓ} → A → K A
pure a s = ok (a, s)

abbrev pub fail {ℓ} : {A : Type ℓ} → String → K A
fail e s = panic e

infixl 5 ◌>>=◌ ◌>>◌
abbrev pub ◌>>=◌ {ℓ κ} : {A : Type ℓ} {B : Type κ} → K A → (A → K B) → K B
◌>>=◌ m f s = elim (m s) [ ok (a, s') ↦ f a s' | panic e ↦ panic e | waits ↦ waits ]

abbrev pub ◌>>◌ {ℓ} : {B : Type ℓ} → K (Unit {0}) → K B → K B
m >> k = m >>= λ _. k

-- A call of the file system.
unfoldable pub lift {ℓ} : {A : Type ℓ} → M A → K A
lift m s = elim (m s.fs) [
  | ok (a, t) ↦ ok (a, record s { fs = t })
  | panic e ↦ panic e
  | waits ↦ waits
]

-- `*f`.
unfoldable pub load_file : ℕ → K File
load_file f s = elim (get_elem? s.files f) [ some p ↦ ok (p, s) | none ↦ panic "no such file" ]

unfoldable pub store_file : ℕ → File → K (Unit {0})
store_file f p s = ok (tt, record s { files = set s.files f p })

-- The loop of `filealloc`: the first entry from `i` on that is not in use.
unfoldable pub find_unused : ℕ → List File → Option ℕ
find_unused i [] = none
find_unused i (p ∷ ps) = let more = find_unused (suc i) ps in if p.ref == 0 then some i else more

unfoldable pub filealloc : K (Option ℕ)
unfolding find_unused load_file store_file
filealloc s = elim (find_unused 0 s.files) [
  | none ↦ ok (none, s)
  | some f ↦ (do p ← load_file f; store_file f (record p { ref = 1 }); pure (some f)) s
]

unfoldable pub filedup : ℕ → K ℕ
unfolding load_file store_file
filedup f = do
  p ← load_file f
  if ltb p.ref 1 then fail "filedup" else (do store_file f (record p { ref = p.ref + 1 }); pure f)

-- `pipeclose` of the pipe in the page `p`.
unfoldable pub close_pipe : Env → ℕ → Bool → K (Unit {0})
unfolding pipeclose Kalloc.kfree
close_pipe env p writable s =
    let r = pipeclose (s.pipes p) writable in
    let s' : Kernel = record s { pipes = update s.pipes p r.0 } in
    if r.1
    then elim (Kalloc.kfree env.kernel_end p s.kmem) [
      | ok m ↦ ok (tt, record s' { kmem = m })
      | panic e ↦ panic e
      | waits ↦ waits
    ]
    else ok (tt, s')

-- What `fileclose` does once the last reference is gone, by the type that the file had.
unfoldable pub release_file : Env → File → FileType → K (Unit {0})
unfolding close_pipe begin_op iput commit_op
release_file env p fd_none = pure tt
release_file env p fd_pipe = close_pipe env p.pipe p.writable
release_file env p fd_inode = do lift begin_op; lift (iput env.dev.reads p.ip); lift commit_op

unfoldable pub fileclose : Env → ℕ → K (Unit {0})
unfolding load_file store_file release_file
fileclose env f = do
  p ← load_file f
  if ltb p.ref 1
      then fail "fileclose"
      else (if ltb 1 p.ref
          then store_file f (record p { ref = p.ref - 1 })
          else (do store_file f (record p { ref = 0; type = fd_none }); release_file env p p.type))
