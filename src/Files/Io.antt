-- ===== src/Files/Io.antt =====
-- file.c: `filestat`, `fileread` and `filewrite`.
use zv.Prelude.{
  ℕ, zero, suc, ◌+◌, ◌-◌, ◌%◌, Bool, true, false, ◌&&◌, not, ◌==◌, ltb, if◌then◌else◌, List, [],
  ◌∷◌, length, Option, none, some, min, ok, waits, update, ℤ, pos, negsuc, to_int, to_uint,
}
use zv.Pipe.{done, failed, asleep, bytes, refused, waiting, pipewrite, piperead}
use zv.Fs.{Inode}
use zv.Fs.Content.{load, readi}
use zv.Fs.Icache.{iunlock}
use zv.Fs.Ilock.{e_corrupted, ilock_ext}
use zv.Fs.Trans.{begin_op, commit_op}
use zv.Fs.Writing.{writei}
use zv.Fs.Rescue.{ilock_trans}
use zv.Fs.Namex.{Env}
use zv.Files.{
  fd_none, fd_pipe, fd_inode, Kernel, K, pure, fail, ◌>>=◌, ◌>>◌, lift, load_file, store_file,
}

-- `struct stat`, less the device.
pub record Stat : Type 0 where
  pub type : ℕ
  pub ino : ℕ
  pub nlink : ℕ
  pub size : ℕ
  pub child1 : ℕ
  pub child2 : ℕ
  pub checksum : ℕ

-- `stati` (fs.c).
unfoldable pub stati : Inode → Stat
stati p = record {
  type = p.type;
  ino = p.inum;
  nlink = p.nlink;
  size = p.size;
  child1 = p.child1;
  child2 = p.child2;
  checksum = p.checksum;
}

abbrev pub is_corrupted : ℤ → Bool
is_corrupted (pos n) = false
is_corrupted (negsuc n) = n == 9

-- The result, and what is written to `st`.
unfoldable pub filestat : Env → ℕ → K (ℤ × Option Stat)
unfolding load_file ilock_trans load stati iunlock
filestat env f = do
  p ← load_file f
  elim p.type [
    | fd_inode ↦ do
      r ← lift (ilock_trans env.depth env.dev p.ip)
      if is_corrupted r
          then pure (e_corrupted, none)
          else (do ip ← lift (load p.ip); lift (iunlock p.ip); pure (pos 0, some (stati ip)))
    | _ ↦ pure (negsuc 0, none)
  ]

-- The bytes of a list from the address 0 on.
abbrev pub overlay : List ℕ → (ℕ → ℕ) → ℕ → ℕ
overlay [] dst j = dst j
overlay (b ∷ bs) dst zero = b
overlay (b ∷ bs) dst (suc j) = overlay bs (λ i. dst (suc i)) j

-- A count of bytes, of which a negative one is none.
abbrev pub rounds : ℤ → ℕ
rounds (pos n) = n
rounds (negsuc n) = 0

unfoldable pub read_pipe : ℕ → ℤ → (ℕ → ℕ) → K (ℤ × (ℕ → ℕ))
unfolding piperead
read_pipe p n dst s =
    let r = piperead (s.pipes p) s.killed (rounds n) in
    elim r.1 [
      | bytes l ↦ ok ((pos (length l), overlay l dst), record s { pipes = update s.pipes p r.0 })
      | refused ↦ ok ((negsuc 0, dst), s)
      | waiting ↦ waits
    ]

-- `f->off += r` for a positive `r`.
unfoldable pub advance : ℕ → ℕ → K (Unit {0})
unfolding load_file store_file
advance f r = do
  p ← load_file f
  if ltb 0 r && ltb r 2147483648
      then store_file f (record p { off = (p.off + r) % 4294967296 })
      else pure tt

unfoldable pub read_inode : Env → ℕ → ℕ → ℤ → (ℕ → ℕ) → K (ℤ × (ℕ → ℕ))
unfolding ilock_trans load_file readi advance iunlock
read_inode env f ip n dst = do
  locked ← lift (ilock_trans env.depth env.dev ip)
  p ← load_file f
  r ← lift (readi env.dev.reads ip dst p.off (to_uint n))
  elim r [
    | none ↦ do lift (iunlock ip); pure (negsuc 0, dst)
    | some (k, out) ↦ do advance f k; lift (iunlock ip); pure (to_int k, out)
  ]

-- The result, and the memory at `addr`, from 0 on, after the call.
unfoldable pub fileread : Env → ℕ → ℤ → (ℕ → ℕ) → K (ℤ × (ℕ → ℕ))
unfolding load_file read_pipe read_inode
fileread env f n dst = do
  p ← load_file f
  if not p.readable then pure (negsuc 0, dst) else elim p.type [
    | fd_pipe ↦ read_pipe p.pipe n dst
    | fd_inode ↦ read_inode env f p.ip n dst
    | fd_none ↦ fail "fileread"
  ]

-- What `filewrite` comes to: a result, or the bytes that are left when the caller goes to sleep.
pub data Write : Type 0 where
  count : ℤ → Write
  blocked : List ℕ → Write

abbrev pub listed : ℕ → (ℕ → ℕ) → List ℕ
listed zero src = []
listed (suc n) src = src 0 ∷ listed n (λ i. src (suc i))

unfoldable pub write_pipe : ℕ → ℤ → (ℕ → ℕ) → K Write
unfolding pipewrite
write_pipe p n src s =
    let r = pipewrite (s.pipes p) s.killed (listed (rounds n) src) in
    let s' : Kernel = record s { pipes = update s.pipes p r.0 } in
    elim r.1 [
      | done ↦ ok (count n, s')
      | failed rest ↦ ok (count (negsuc 0), s')
      | asleep rest ↦ ok (blocked rest, s')
    ]

-- The bytes that one transaction writes: (LOGSIZE-1-1-2) / 2 blocks.
abbrev pub write_max : ℕ
write_max = 4096

-- One transaction of `filewrite`; `none` is -1.
unfoldable pub write_chunk : Env → ℕ → ℕ → (ℕ → ℕ) → ℕ → K (Option ℕ)
unfolding begin_op ilock_ext load_file writei advance iunlock commit_op
write_chunk env f ip src n1 = do
  lift begin_op
  locked ← lift (ilock_ext env.depth env.dev.reads ip true)
  p ← load_file f
  r ← lift (writei env.depth env.dev ip src p.off n1)
  elim r [ none ↦ pure tt | some k ↦ advance f k ]
  lift (iunlock ip)
  lift commit_op
  pure r

-- The loop of `filewrite` on fuel: each round but the last writes a byte at least.  It returns `i`.
unfoldable pub write_rounds : ℕ → Env → ℕ → ℕ → (ℕ → ℕ) → ℕ → ℕ → K ℕ
unfolding write_chunk
write_rounds zero env f ip src i n = pure i
write_rounds (suc fuel) env f ip src i n =
    let n1 = min (n - i) write_max in
    let more = write_rounds fuel env f ip src (i + n1) n in
    if ltb i n
    then (do
      r ← write_chunk env f ip (λ x. src (i + x)) n1
      elim r [ none ↦ pure i | some k ↦ if k == n1 then more else fail "short filewrite" ])
    else pure i

unfoldable pub write_inode : Env → ℕ → ℕ → ℤ → (ℕ → ℕ) → K Write
unfolding ilock_trans iunlock write_rounds
write_inode env f ip n src = do
  r ← lift (ilock_trans env.depth env.dev ip)
  if is_corrupted r then pure (count e_corrupted) else (do
    lift (iunlock ip)
    i ← write_rounds (rounds n) env f ip src 0 (rounds n)
    elim n [
      | pos k ↦ if i == k then pure (count (pos k)) else pure (count (negsuc 0))
      | negsuc k ↦ pure (count (negsuc 0))
    ])

unfoldable pub filewrite : Env → ℕ → ℤ → (ℕ → ℕ) → K Write
unfolding load_file write_pipe write_inode
filewrite env f n src = do
  p ← load_file f
  if not p.writable then pure (count (negsuc 0)) else elim p.type [
    | fd_pipe ↦ write_pipe p.pipe n src
    | fd_inode ↦ write_inode env f p.ip n src
    | fd_none ↦ fail "filewrite"
  ]
