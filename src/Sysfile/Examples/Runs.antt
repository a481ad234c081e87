-- ===== src/Sysfile/Examples/Runs.antt =====
-- Runs of sysfile.c.
use zv.Prelude.{
  ℕ, ◌≡◌, ◌≢◌, refl, arith, List, [], ◌∷◌, get_elem?, Option, some, Result, ok, panic, waits, ℤ,
  pos,
}
use zv.Syscall.{fetchint, scan_string, fetchstr, argint, argstr}
use zv.Fs.Content.{load, store_inode}
use zv.Fs.Icache.{scan, idup, reuse, iget, iunlock}
use zv.Fs.Ilock.{ilock_ext}
use zv.Fs.Path.{skipelem}
use zv.Fs.Rescue.{ilock_trans}
use zv.Fs.Namex.{namex_loop, namex, namei_ext}
use zv.Files.{Kernel, lift, load_file, store_file, find_unused, filealloc, filedup, fileclose}
use zv.Files.Refs.{Counted, ref_of}
use zv.Files.Alloc.{Allocated, filealloc-Allocated}
use zv.Sysfile.{ask, argfd, find_fd, fdalloc, sys_dup, sys_close}
use zv.Sysfile.Paths.{namei}
use zv.Sysfile.Create.{create}
use zv.Sysfile.Open.{open_args, alloc_fd, set_inode_file, finish_open, open_locked, sys_open}
use zv.Sysfile.Refs.{Duplicated, sys_dup-Counted}
use zv.Sysfile.Close.{Closed, sys_close-Counted}
use zv.Sysfile.Session.{FileCall, dup, open_path, close, handler, session, session-keeps_files}
use zv.Syscall.{User}
use zv.Sysfile.Faults.{create-empty_path}
use zv.Sysfile.Examples.State.{env, kernel, others, kernel-Counted, state_of, root, user}

filealloc_example :
    (r : Option ℕ) × (t : Kernel) × (filealloc (kernel 0 0) ≡ ok (r, t))
    × Allocated (kernel 0 0) r t
filealloc_example = filealloc-Allocated (kernel 0 0)

sys_dup_example :
    (r : ℤ) × (t : Kernel) × (sys_dup (kernel 0 0) ≡ ok (r, t))
    × Counted others t
    × Duplicated (kernel 0 0) r t
sys_dup_example = sys_dup-Counted others (kernel 0 0) (kernel-Counted 0 0)

abbrev closed : Kernel
unfolding sys_close argfd argint fetchint fileclose load_file store_file
closed = state_of (kernel 0 0) (sys_close env (kernel 0 0))

closes : sys_close env (kernel 0 0) ≡ ok (pos 0, closed)
unfolding closed sys_close argfd argint fetchint fileclose load_file store_file
closes = refl

sys_close_example : Counted others closed × Closed (kernel 0 0) (pos 0) closed
sys_close_example =
    sys_close-Counted others env (kernel 0 0) (pos 0) closed (kernel-Counted 0 0) closes

create-empty_path_example : create env 50 2 1 0 (kernel 0 0) ≡ panic "ilock"
create-empty_path_example =
    create-empty_path env 50 2 1 0 (kernel 0 0) (root 0) refl refl (omega arith)

-- `open("/", 0)`, `dup(1)` and `close(0)`; the process has two descriptors at most.
abbrev calls : List (FileCall × User)
calls = (open_path, user 100) ∷ (dup, user 1) ∷ (close, user 0) ∷ []

abbrev result_of : Result Kernel → Kernel
result_of (ok s) = s
result_of (panic e) = kernel 0 0
result_of waits = kernel 0 0

abbrev ended : Kernel
unfolding session handler sys_open open_args ask argstr argint fetchint fetchstr scan_string namei
    namei_ext namex namex_loop skipelem lift iget scan idup reuse load store_inode ilock_trans
    ilock_ext open_locked finish_open alloc_fd filealloc find_unused fdalloc find_fd set_inode_file
    iunlock load_file store_file sys_dup argfd filedup sys_close fileclose
ended = result_of (session env calls (kernel 0 0))

ends : session env calls (kernel 0 0) ≡ ok ended
unfolding ended session handler sys_open open_args ask argstr argint fetchint fetchstr scan_string
    namei namei_ext namex namex_loop skipelem lift iget scan idup reuse load store_inode ilock_trans
    ilock_ext open_locked finish_open alloc_fd filealloc find_unused fdalloc find_fd set_inode_file
    iunlock load_file store_file sys_dup argfd filedup sys_close fileclose
ends = refl

session_example :
    Counted others ended
    × ((fd f : ℕ) → get_elem? ended.ofile fd ≡ some (some f) → ref_of ended.files f ≢ 0)
session_example = session-keeps_files others env calls (kernel 0 0) ended (kernel-Counted 0 0) ends
