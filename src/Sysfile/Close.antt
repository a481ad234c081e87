-- ===== src/Sysfile/Close.antt =====
-- sysfile.c: `sys_close` and the reference counts.
use zv.Prelude.{
  ℕ, ◌-◌, ◌≡◌, ◌≢◌, refl, sym, ap, ◌∙◌, arith, ◌==◌, if◌then◌else◌, get_elem?, set, none, some,
  Result, ok, ℤ, pos, negsuc,
}
use zv.Fs.Namex.{Env}
use zv.Files.{Kernel, pure, ◌>>=◌, ◌>>◌, fileclose}
use zv.Files.Refs.{bind_ok, ref_of, count_of-set, Counted}
use zv.Files.Close.{Dropped, fileclose_lem}
use zv.Sysfile.{sys_close}
use zv.Sysfile.Refs.{NamesNone, Names, Argfd, no_file, open_file, argfd_lem}

-- What `sys_close` returns, and the state after it.
pub data Closed (s : Kernel) : ℤ → Kernel → Type 0 where
  not_open : NamesNone 0 s → Closed s (negsuc 0) s
  closed :
      {fd f : ℕ} {t : Kernel}
      → Names 0 s fd f
      → t.ofile ≡ set s.ofile fd none
      → ((g : ℕ) → ref_of t.files g ≡ (if g == f then ref_of s.files f - 1 else ref_of s.files g))
      → Closed s (pos 0) t

module _ (others : ℕ → ℕ) (env : Env) where
  Counted-less :
      (s u t : Kernel) (f fd : ℕ)
      → Counted others s
      → get_elem? s.ofile fd ≡ some (some f)
      → u ≡ record s { ofile = set s.ofile fd none }
      → (ref_of u.files f ≢ 0) × Dropped f u t
      → Counted others t
  Counted-less s u t f fd c found at (used, (ofile, refs)) = record {
    counted = λ g.
        let less = count_of-set s.ofile fd g (some f) none found in
        let both = c.counted g in
        let files : u.files ≡ s.files = ap (λ (k : Kernel). k.files) at in
        let same : t.ofile ≡ set s.ofile fd none = ofile ∙ ap (λ (k : Kernel). k.ofile) at in
        refs g ∙ rw (files, same) (ground (arith, less, both, c.counted f));
  }

  -- If each file has as many references as there are descriptors for it, and `sys_close` returns, then so it is afterwards.  If its argument is a descriptor of a file, the result is 0, that descriptor names no file any more, and the file has one reference less; otherwise the result is -1 and nothing has changed.
  pub sys_close-Counted :
      (s : Kernel) (r : ℤ) (t : Kernel)
      → Counted others s
      → sys_close env s ≡ ok (r, t)
      → Counted others t × Closed s r t
  unfolding sys_close
  sys_close-Counted s r t c e = go (argfd_lem 0 s)
    where
      go : Argfd 0 s → Counted others t × Closed s r t
      go (no_file q names) =
          let h : ◌≡◌ {A = Result (ℤ × Kernel)} (ok (negsuc 0, s)) (ok (r, t)) =
            sym (rw (q, ◌>>=◌) refl) ∙ e in
          let at : t ≡ s = ground (arith, h) in
          let minus : r ≡ negsuc 0 = ground (arith, h) in (rw at c, rw (at, minus) (not_open names))
      go (open_file fd f q named) =
          let u : Kernel = record s { ofile = set s.ofile fd none } in
          let h : (fileclose env f >> pure (pos 0)) u ≡ ok (r, t) =
            sym (rw (q, ◌>>=◌, ◌>>◌) refl) ∙ e in
          let (a, v, done, rest) = bind_ok (fileclose env f) (λ _. pure (pos 0)) u r t h in
          let same : ◌≡◌ {A = Result (ℤ × Kernel)} (ok (pos 0, v)) (ok (r, t)) = rest in
          let at : v ≡ t = ground (arith, same) in
          let zero_r : r ≡ pos 0 = ground (arith, same) in
          let d : (ref_of u.files f ≢ 0) × Dropped f u t =
            fileclose_lem env f u t (rw at at done) in
          (Counted-less s u t f fd c named.file refl d, rw zero_r (closed named d.1.0 d.1.1))
