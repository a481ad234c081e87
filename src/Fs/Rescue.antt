-- ===== src/Fs/Rescue.antt =====
-- fs.c: `iduplicate`, `irescue` and `ilock_trans`, which restore an inode from a ditto inode.
use zv.Prelude.{
  ℕ, zero, suc, ◌+◌, ◌-◌, ◌%◌, true, false, ◌&&◌, ◌==◌, ltb, if◌then◌else◌, min, none, some, waits,
  ℤ, pos, negsuc,
}
use zv.Block.{block_size}
use zv.Fs.{M, pure, fail, ◌>>=◌, ◌>>◌}
use zv.Fs.Content.{load, store_inode, readi}
use zv.Fs.Icache.{iget, iunlock}
use zv.Fs.Ilock.{ilock_ext, e_corrupted}
use zv.Fs.Trans.{begin_op, commit_op}
use zv.Fs.Writing.{Devsw, writei_ext}

-- The loop of `iduplicate` on fuel, up to `end`; the -1 of `readi` is not 0 as a uint, and is the
-- number of bytes that `writei_ext` is then given.
unfoldable pub copy_loop : ℕ → Devsw → ℕ → ℕ → ℕ → ℕ → M (Unit {0})
unfolding readi writei_ext
copy_loop zero dev src dst off end = λ s. waits
copy_loop (suc fuel) dev src dst off end =
    let more = λ (n : ℕ). copy_loop fuel dev src dst ((off + n) % 4294967296) end in
    (do
      r ← readi dev.reads src (λ _. 0) off block_size
      elim r [
        | none ↦
            if ltb off end
            then (do w ← writei_ext 1 dev dst (λ _. 0) off 4294967295 true; more 4294967295)
            else pure tt
        | some (n, buf) ↦
            if ltb 0 n && ltb off end
            then (do w ← writei_ext 1 dev dst buf off n true; more n)
            else pure tt
      ])

-- Each round but the last copies a byte at least.
unfoldable pub iduplicate : Devsw → ℕ → ℕ → ℕ → ℕ → M (Unit {0})
unfolding load store_inode copy_loop
iduplicate dev src dst off ntotal = do
  p ← load src
  q ← load dst
  let copy' = record q.copy { checksum = p.checksum; size = p.size }
  store_inode dst (record q { copy = copy' })
  copy_loop (p.size + 2) dev src dst off ((ntotal + off) % 4294967296)

-- The bytes that one transaction copies: (LOGSIZE-1-1-2) / 4 blocks.
abbrev pub rescue_max : ℕ
rescue_max = 2048

-- The loop of `irescue` on fuel, over the `n` bytes of the inode.
unfoldable pub rescue_loop : ℕ → Devsw → ℕ → ℕ → ℕ → ℕ → M (Unit {0})
unfolding begin_op iduplicate commit_op
rescue_loop zero dev ip rinode i n = pure tt
rescue_loop (suc fuel) dev ip rinode i n =
    let n1 = min (n - i) rescue_max in
    let more = rescue_loop fuel dev ip rinode (i + n1) n in
    if ltb i n then (do begin_op; iduplicate dev rinode ip i n1; commit_op; more) else pure tt

-- `off` and `i` of the source are equal throughout.  A size is not negative as an int.
unfoldable pub irescue : Devsw → ℕ → ℕ → M (Unit {0})
unfolding ilock_ext load rescue_loop iunlock
irescue dev ip rinode = do
  a ← ilock_ext 1 dev.reads rinode false
  b ← ilock_ext 1 dev.reads ip false
  p ← load ip
  rescue_loop p.size dev ip rinode 0 p.size
  iunlock rinode
  iunlock ip

-- The last lines of `ilock_trans`.
unfoldable pub lock_again : ℕ → Devsw → ℕ → M ℤ
unfolding ilock_ext
lock_again fuel dev ip = do
  r ← ilock_ext fuel dev.reads ip true
  elim r [
    | pos zero ↦ pure (pos 0)
    | _ ↦ fail "ilock_trans attempted to recover but still failed to unlock"
  ]

unfoldable pub ilock_trans : ℕ → Devsw → ℕ → M ℤ
unfolding ilock_ext iget irescue lock_again
ilock_trans fuel dev ip = do
  r ← ilock_ext fuel dev.reads ip true
  elim r [
    | pos zero ↦ pure (pos 0)
    | pos (suc n) ↦ do ic ← iget (suc n); irescue dev ip ic; lock_again fuel dev ip
    | negsuc n ↦ if n == 9 then pure e_corrupted else lock_again fuel dev ip
  ]
