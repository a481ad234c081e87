-- ===== src/Sysfile/Ditto.antt =====
-- sysfile.c: `ipropagate`, `duplicate` and `sys_duplicate`, which give ditto inodes to a file.
use zv.Prelude.{
  ℕ, zero, suc, ◌+◌, ◌-◌, Bool, true, false, not, ◌==◌, ltb, if◌then◌else◌, min, Option, none, some,
  ℤ, pos, negsuc, to_int,
}
use zv.Syscall.{argint, argstr}
use zv.Fs.Content.{load}
use zv.Fs.Icache.{iget, iunlock}
use zv.Fs.Ilock.{ilock_ext}
use zv.Fs.Trans.{begin_op, commit_op}
use zv.Fs.Update.{iupdate}
use zv.Fs.Free.{iunlockput}
use zv.Fs.Rescue.{iduplicate, ilock_trans}
use zv.Fs.Namex.{Env}
use zv.Files.{K, pure, ◌>>=◌, ◌>>◌, lift}
use zv.Files.Io.{is_corrupted, write_max}
use zv.Sysfile.{ask}
use zv.Sysfile.Paths.{namei}
use zv.Sysfile.Create.{modify_inode, new_ditto}

-- `n1` bytes from `off` on are copied to the ditto inode `inum`, if there is one.
unfoldable pub propagate_to : Env → ℕ → ℕ → ℕ → ℕ → K (Unit {0})
unfolding iget ilock_ext iduplicate iunlock
propagate_to env ip inum off n1 = if inum == 0 then pure tt else (do
  ic ← lift (iget inum)
  r ← lift (ilock_ext env.depth env.dev.reads ic false)
  lift (iduplicate env.dev ip ic off n1)
  lift (iunlock ic))

-- The loop of `ipropagate` on fuel; `off` and `i` are equal throughout.
unfoldable pub propagate_loop : ℕ → Env → ℕ → ℕ → ℕ → K (Unit {0})
unfolding begin_op load propagate_to commit_op
propagate_loop zero env ip i n = pure tt
propagate_loop (suc fuel) env ip i n =
    let n1 = min (n - i) write_max in
    let more = propagate_loop fuel env ip (i + n1) n in
    if ltb i n
    then (do
      lift begin_op
      p ← lift (load ip)
      propagate_to env ip p.child1 i n1
      lift commit_op
      lift begin_op
      q ← lift (load ip)
      propagate_to env ip q.child2 i n1
      lift commit_op
      more)
    else pure tt

-- A size is not negative as an int.
unfoldable pub ipropagate : Env → ℕ → K (Unit {0})
unfolding load propagate_loop
ipropagate env ip = do p ← lift (load ip); propagate_loop p.size env ip 0 p.size

-- The first ditto inode, if one is asked for; `false` where there is one already.
unfoldable pub give_first : ℕ → ℤ → K Bool
unfolding load new_ditto modify_inode
give_first ip (negsuc k) = pure true
give_first ip (pos zero) = pure true
give_first ip (pos (suc k)) = do
  p ← lift (load ip)
  if not (p.child1 == 0)
      then pure false
      else (do c ← new_ditto; lift (modify_inode ip (λ d. record d { child1 = c })); pure true)

-- The second, if two are asked for.
unfoldable pub give_second : ℕ → ℤ → K Bool
unfolding load new_ditto modify_inode
give_second ip (negsuc k) = pure true
give_second ip (pos zero) = pure true
give_second ip (pos (suc zero)) = pure true
give_second ip (pos (suc (suc k))) = do
  p ← lift (load ip)
  if not (p.child2 == 0)
      then pure false
      else (do c ← new_ditto; lift (modify_inode ip (λ d. record d { child2 = c })); pure true)

-- The end of `duplicate`.
unfoldable pub spread : Env → ℕ → K (Option ℕ)
unfolding commit_op ipropagate begin_op iupdate iunlockput
spread env ip = do
  lift commit_op
  ipropagate env ip
  lift begin_op
  lift (iupdate env.dev.reads ip)
  lift (iunlockput env.dev.reads ip)
  lift commit_op
  pure (some ip)

-- Where a ditto inode is there already the transaction is left open, and the inode locked.
unfoldable pub duplicate : Env → ℕ → ℤ → K (Option ℕ)
unfolding namei ilock_trans begin_op give_first give_second spread
duplicate env path ndittos = do
  found ← namei env true path
  elim found [
    | none ↦ pure none
    | some ip ↦ do
      r ← lift (ilock_trans env.depth env.dev ip)
      if is_corrupted r then pure none else (do
        lift begin_op
        a ← give_first ip ndittos
        if not a
            then pure none
            else (do b ← give_second ip ndittos; if not b then pure none else spread env ip))
  ]

unfoldable pub sys_duplicate : Env → K ℤ
unfolding argstr argint duplicate
sys_duplicate env = do
  a ← ask (λ u. argstr u 0)
  elim a [
    | none ↦ pure (negsuc 0)
    | some (path, len) ↦ do
      n ← ask (λ u. argint u 1)
      elim n [
        | none ↦ pure (negsuc 0)
        | some ndittos ↦ do
          made ← duplicate env path (to_int ndittos)
          elim made [ none ↦ pure (negsuc 0) | some ip ↦ pure (pos 0) ]
      ]
  ]
