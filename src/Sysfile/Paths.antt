-- ===== src/Sysfile/Paths.antt =====
-- fs.c: `namei`, `nameiparent` and `distance_to_root`, for paths in the memory of the process.
use zv.Prelude.{
  ℕ, zero, suc, ◌+◌, Bool, true, ◌==◌, ltb, if◌then◌else◌, Option, none, some, waits, ℤ,
}
use zv.Strings.{Memory}
use zv.Fs.{M, fail as panics}
use zv.Fs.Content.{load}
use zv.Fs.Free.{iunlockput}
use zv.Fs.Rescue.{ilock_trans}
use zv.Fs.Directory.{dirlookup}
use zv.Fs.Namex.{Env, namei_ext, nameiparent_ext}
use zv.Files.{K, pure, fail, ◌>>=◌, ◌>>◌, lift}

-- The buffer for a name is on the stack of the kernel, above the memory of the process.
abbrev pub name_buffer : ℕ
name_buffer = 2147483648

-- `namei_trans` and `namei`.
unfoldable pub namei : Env → Bool → ℕ → K (Option ℕ)
unfolding namei_ext
namei env trans path s =
    (do r ← lift (namei_ext env s.cwd path name_buffer trans s.user.memory); pure r.0) s

-- The name, as the function of its bytes, comes with the directory.
abbrev pub with_name : Option ℕ → Memory → Option (ℕ × (ℕ → ℕ))
with_name none m = none
with_name (some dp) m = some (dp, λ i. m (name_buffer + i))

-- `nameiparent_trans` and `nameiparent`.
unfoldable pub nameiparent : Env → Bool → ℕ → K (Option (ℕ × (ℕ → ℕ)))
unfolding nameiparent_ext
nameiparent env trans path s =
    (do
      r ← lift (nameiparent_ext env s.cwd path name_buffer trans s.user.memory)
      pure (with_name r.0 r.1))
      s

-- The names "." and "..".
abbrev pub dot : ℕ → ℕ
dot i = if i == 0 then 46 else 0

abbrev pub dot_dot : ℕ → ℕ
dot_dot i = if ltb i 2 then 46 else 0

-- The loop of `distance_to_root` on fuel; the directory `dp` is locked.
unfoldable pub climb : ℕ → Env → ℕ → ℕ → K ℕ
unfolding dirlookup load iunlockput ilock_trans
climb zero env dp counter = λ s. waits
climb (suc fuel) env dp counter =
    let more = λ (ip : ℕ). climb fuel env ip (counter + 1) in
    (do
      up ← lift (dirlookup env.dev dp dot_dot)
      elim up [
        | none ↦ pure counter
        | some (ip, off) ↦ do
          p ← lift (load dp)
          lift (iunlockput env.dev.reads dp)
          r ← lift (ilock_trans env.depth env.dev ip)
          q ← lift (load ip)
          if p.inum == q.inum
              then (do lift (iunlockput env.dev.reads ip); pure counter)
              else more ip
      ])

-- `ilock_trans` of a pointer: `ilock_ext`, which it calls first, tests for a null pointer.
unfoldable pub ilock_pointer : Env → Option ℕ → M ℤ
unfolding ilock_trans
ilock_pointer env none = panics "ilock"
ilock_pointer env (some ip) = ilock_trans env.depth env.dev ip

abbrev pub parent_of : Option (ℕ × (ℕ → ℕ)) → Option ℕ
parent_of none = none
parent_of (some (dp, name)) = some dp

-- The pointer that `nameiparent_ext` returns is not tested before it is locked.
unfoldable pub distance_to_root : Env → ℕ → K ℕ
unfolding nameiparent ilock_pointer climb
distance_to_root env path = do
  found ← nameiparent env true path
  r ← lift (ilock_pointer env (parent_of found))
  elim found [ none ↦ fail "dirlookup" | some (dp, name) ↦ climb env.length env dp 1 ]
