-- ===== src/Files/Pipes.antt =====
-- pipe.c: `pipealloc`.
use zv.Prelude.{ℕ, Bool, true, false, not, ◌==◌, if◌then◌else◌, Option, none, some, ok, update}
use zv.Kalloc.{kalloc}
use zv.Pipe.{fresh}
use zv.Fs.Namex.{Env}
use zv.Files.{fd_pipe, K, pure, ◌>>=◌, ◌>>◌, load_file, store_file, filealloc, fileclose}

-- A page for a pipe, 0 if there is none; the data of the pipe is what the page holds.
unfoldable pub alloc_pipe : K ℕ
unfolding kalloc fresh
alloc_pipe s =
    let r = kalloc s.kmem in
    if r.0 == 0
    then ok (0, record s { kmem = r.1 })
    else ok
        (r.0, record s { kmem = r.1; pipes = update s.pipes r.0 (fresh (s.pipes r.0).contents) })

-- One end of the pipe.
unfoldable pub make_end : ℕ → ℕ → Bool → K (Unit {0})
unfolding load_file store_file
make_end f p writes = do
  q ← load_file f
  store_file f (record q { type = fd_pipe; readable = not writes; writable = writes; pipe = p })

unfoldable pub pipealloc : Env → K (Option (ℕ × ℕ))
unfolding filealloc fileclose alloc_pipe make_end
pipealloc env = do
  a ← filealloc
  elim a [
    | none ↦ pure none
    | some f0 ↦ do
      b ← filealloc
      elim b [
        | none ↦ do fileclose env f0; pure none
        | some f1 ↦ do
          p ← alloc_pipe
          if p == 0
              then (do fileclose env f0; fileclose env f1; pure none)
              else (do make_end f0 p false; make_end f1 p true; pure (some (f0, f1)))
      ]
  ]
