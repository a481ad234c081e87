-- ===== src/Fs/Namex.antt =====
-- fs.c: `namex` and its callers.  A path and the buffer for names lie in a byte memory; the current
-- directory of the process is an argument.
use zv.Prelude.{
  ℕ, zero, suc, ◌+◌, Bool, true, false, ◌&&◌, not, ◌==◌, if◌then◌else◌, Option, none, some, waits,
  ℤ,
}
use zv.Strings.{Memory}
use zv.Fs.{M, pure, ◌>>=◌, ◌>>◌}
use zv.Fs.Content.{load}
use zv.Fs.Icache.{iget, idup, iunlock}
use zv.Fs.Ilock.{ilock_ext}
use zv.Fs.Path.{slash, skipelem}
use zv.Fs.Free.{iput, iunlockput}
use zv.Fs.Writing.{Devsw}
use zv.Fs.Rescue.{ilock_trans}
use zv.Fs.Directory.{t_dir, is_zero, dirlookup}

-- ROOTINO.
abbrev pub root_inum : ℕ
root_inum = 1

-- What the code has at hand: fuel for the locks and for the path, the device switch, and the address
-- where the kernel ends.
pub record Env : Type 0 where
  pub depth : ℕ
  pub length : ℕ
  pub dev : Devsw
  pub kernel_end : ℕ

unfoldable pub lock_dir : Env → Bool → ℕ → M ℤ
unfolding ilock_trans ilock_ext
lock_dir env trans ip =
    if trans then ilock_trans env.depth env.dev ip else ilock_ext env.depth env.dev.reads ip true

-- The directory `ip` is locked: the next element is looked up in it, or it is the result.
unfoldable pub enter : Env → Bool → ℕ → ℕ → ℕ → Memory → M (Option ℕ × Bool)
unfolding load iunlock iunlockput dirlookup
enter env want_parent ip path name m = do
  p ← load ip
  if not (p.type == t_dir)
      then (do iunlockput env.dev.reads ip; pure (none, true))
      else (if want_parent && m path == 0 then (do iunlock ip; pure (some ip, true)) else (do
        next ← dirlookup env.dev ip (λ i. m (name + i))
        iunlockput env.dev.reads ip
        elim next [ none ↦ pure (none, true) | some (c, off) ↦ pure (some c, false) ]))

-- The loop of `namex` on fuel for the elements of the path.  A result of `enter` with `true` is final.
unfoldable pub namex_loop : ℕ → Env → Bool → Bool → ℕ → ℕ → ℕ → Memory → M (Option ℕ × Memory)
unfolding skipelem lock_dir enter iput
namex_loop zero env want_parent trans ip path name m = λ s. waits
namex_loop (suc fuel) env want_parent trans ip path name m =
    let more = λ (c : ℕ) (q : ℕ).
      namex_loop fuel env want_parent trans c q name (skipelem env.length path name m).1 in
    elim (skipelem env.length path name m).0 [
      | none ↦ if want_parent then (do iput env.dev.reads ip; pure (none, m)) else pure (some ip, m)
      | some q ↦ do
        r ← lock_dir env trans ip
        if not (is_zero r) then pure (none, (skipelem env.length path name m).1) else (do
          step ← enter env want_parent ip q name (skipelem env.length path name m).1
          elim step.0 [
            | none ↦ pure (none, (skipelem env.length path name m).1)
            | some c ↦
                if step.1 then pure (some c, (skipelem env.length path name m).1) else more c q
          ])
    ]

unfoldable pub namex : Env → ℕ → ℕ → Bool → ℕ → Bool → Memory → M (Option ℕ × Memory)
unfolding iget idup namex_loop
namex env cwd path want_parent name trans m = do
  ip ← if m path == slash then iget root_inum else idup cwd
  namex_loop (suc env.length) env want_parent trans ip path name m

unfoldable pub namei_ext : Env → ℕ → ℕ → ℕ → Bool → Memory → M (Option ℕ × Memory)
unfolding namex
namei_ext env cwd path name trans m = namex env cwd path false name trans m

unfoldable pub nameiparent_ext : Env → ℕ → ℕ → ℕ → Bool → Memory → M (Option ℕ × Memory)
unfolding namex
nameiparent_ext env cwd path name trans m = namex env cwd path true name trans m
