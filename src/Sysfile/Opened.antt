-- ===== src/Sysfile/Opened.antt =====
-- sysfile.c: the calls that open files keep the reference counts.
use zv.Prelude.{
  ℕ, ◌≡◌, refl, sym, ap, ◌∙◌, arith, ◌==◌, if◌then◌else◌, List, set, get_elem?, Option, none, some,
  ok, Result, ℤ, pos,
}
use zv.Fs.Icache.{iunlock}
use zv.Fs.Free.{iunlockput}
use zv.Fs.Namex.{Env}
use zv.Files.{File, Kernel, pure, ◌>>=◌, ◌>>◌, lift, load_file, store_file, filealloc, fileclose}
use zv.Files.Refs.{bind_ok, bind_at, ref_of, ref_of-set, count_of-set, Counted, load_file_ok}
use zv.Files.Close.{Dropped, fileclose_lem}
use zv.Files.Alloc.{Allocated, table_full, first_free, set_ref, filealloc-Allocated}
use zv.Sysfile.{find_fd, fdalloc}
use zv.Sysfile.Refs.{find_fd-free}
use zv.Sysfile.Open.{alloc_fd, set_inode_file, finish_open}
use zv.Sysfile.Keeps.{Keeps, pure-Keeps, lift-Keeps, bind-Keeps, option-Keeps}

module _ (others : ℕ → ℕ) (env : Env) where
  -- A file that was free is closed again.
  Counted-back :
      (s v : Kernel) (f : ℕ) (files : List File)
      → Counted others s
      → ref_of s.files f ≡ 0
      → ((g : ℕ) → ref_of files g ≡ (if g == f then 1 else ref_of s.files g))
      → Dropped f (record s { files = files }) v
      → Counted others v
  Counted-back s v f files c free new (ofile, refs) = record {
    counted = λ g. refs g ∙ rw ofile (ground (arith, new f, new g, c.counted g, free));
  }

  -- A file that was free has a descriptor.
  Counted-new :
      (s : Kernel) (f fd : ℕ) (files : List File)
      → Counted others s
      → ref_of s.files f ≡ 0
      → get_elem? s.ofile fd ≡ some none
      → ((g : ℕ) → ref_of files g ≡ (if g == f then 1 else ref_of s.files g))
      → Counted others (record s { files = files; ofile = set s.ofile fd (some f) })
  Counted-new s f fd files c free unused new = record {
    counted = λ g.
        let more = count_of-set s.ofile fd g none (some f) unused in
        let both = c.counted g in ground (arith, new g, more, both, c.counted f, free);
  }

  alloc_fd-Keeps : (ip : ℕ) → Keeps others (alloc_fd env ip)
  unfolding alloc_fd fdalloc
  alloc_fd-Keeps ip = record { keeps = λ s a t c e. start s a t c e (filealloc-Allocated s) }
    where
      give_up :
          Keeps others (lift (iunlockput env.dev.reads ip) >>= λ _. pure {A = Option (ℕ × ℕ)} none)
      give_up = bind-Keeps others (lift-Keeps others _) (λ _. pure-Keeps others none)

      with_fd :
          (s : Kernel) (a : Option (ℕ × ℕ)) (t : Kernel) (f : ℕ) (files : List File)
          → Counted others s
          → alloc_fd env ip s ≡ ok (a, t)
          → filealloc s ≡ ok (some f, record s { files = files })
          → ref_of s.files f ≡ 0
          → ((g : ℕ) → ref_of files g ≡ (if g == f then 1 else ref_of s.files g))
          → (r : Option ℕ) → find_fd 0 s.ofile ≡ r
          → Counted others t
      with_fd s a t f files c e q free new none h =
          let u : Kernel = record s { files = files } in
          let rest : (fileclose env f >> (lift (iunlockput env.dev.reads ip) >>= λ _. pure none)) u
              ≡ ok (a, t) =
            sym (rw (alloc_fd, ◌>>=◌, q, fdalloc, h) refl) ∙ e in
          let (b, v, e1, e2) = bind_ok (fileclose env f) _ u a t rest in
          let (used, d) = fileclose_lem env f u v e1 in
          give_up.keeps v a t (Counted-back s v f files c free new d) e2
      with_fd s a t f files c e q free new (some fd) h =
          let done : ◌≡◌ {A = Result (Option (ℕ × ℕ) × Kernel)}
              (ok (some (fd, f), record s { files = files; ofile = set s.ofile fd (some f) }))
              (ok (a, t)) =
            sym (rw (alloc_fd, ◌>>=◌, q, fdalloc, h) refl) ∙ e in
          let same : t ≡ record s { files = files; ofile = set s.ofile fd (some f) } =
            ground (arith, done) in
          rw same (Counted-new s f fd files c free (find_fd-free s.ofile fd h) new)

      by_result :
          (s : Kernel) (a : Option (ℕ × ℕ)) (t : Kernel) (r : Option ℕ) (u : Kernel)
          → Counted others s
          → alloc_fd env ip s ≡ ok (a, t)
          → filealloc s ≡ ok (r, u)
          → Allocated s r u
          → Counted others t
      by_result s a t none u c e q (table_full full) =
          let rest : (lift (iunlockput env.dev.reads ip) >>= λ _. pure none) u ≡ ok (a, t) =
            bind_at filealloc _ s none u (ok (a, t)) q e in
          give_up.keeps u a t c rest
      by_result s a t (some f) u c e q (first_free p at free here before) =
          with_fd s a t f (set s.files f (record p { ref = 1 })) c e q (ground (arith, at, free))
            (set_ref s.files f p at) (find_fd 0 s.ofile) refl

      start :
          (s : Kernel) (a : Option (ℕ × ℕ)) (t : Kernel)
          → Counted others s
          → alloc_fd env ip s ≡ ok (a, t)
          → (r : Option ℕ) × (u : Kernel) × (filealloc s ≡ ok (r, u)) × Allocated s r u
          → Counted others t
      start s a t c e (r, u, q, done) = by_result s a t r u c e q done

  -- A file is changed, but not its references.
  store_same :
      (f : ℕ) (h : File → File)
      → ((p : File) → (h p).ref ≡ p.ref)
      → Keeps others (load_file f >>= λ p. store_file f (h p))
  unfolding store_file
  store_same f h same = record {
    keeps = λ s a t c e.
        let (p, u, e1, e2) = bind_ok (load_file f) (λ p. store_file f (h p)) s a t e in
        let (found, at) = load_file_ok f s p u e1 in
        let files : t.files ≡ set u.files f (h p) = ground (arith, e2) in
        let ofile : t.ofile ≡ u.ofile = ground (arith, e2) in
        counted_same s t f p (h p) c found (same p)
          (files ∙ ap (λ (k : Kernel). set k.files f (h p)) at)
          (ofile ∙ ap (λ (k : Kernel). k.ofile) at);
  }
    where
      counted_same :
          (s t : Kernel) (f : ℕ) (p q : File)
          → Counted others s
          → get_elem? s.files f ≡ some p
          → q.ref ≡ p.ref
          → t.files ≡ set s.files f q
          → t.ofile ≡ s.ofile
          → Counted others t
      counted_same s t f p q c found same files ofile = record {
        counted = λ g.
            rw (files, ofile)
              (ref_of-set s.files f g q p found ∙ ground (arith, found, same, c.counted g));
      }

  set_inode_file-Keeps : (f ip omode : ℕ) → Keeps others (set_inode_file f ip omode)
  unfolding set_inode_file
  set_inode_file-Keeps f ip omode = store_same f _ (λ p. refl)

  pub finish_open-Keeps : (ip omode : ℕ) (error : ℤ) → Keeps others (finish_open env ip omode error)
  unfolding finish_open
  finish_open-Keeps ip omode error = bind-Keeps others (alloc_fd-Keeps ip) (λ a.
      option-Keeps others a (pure-Keeps others error) (λ r.
        bind-Keeps others (lift-Keeps others (iunlock ip)) (λ _.
          bind-Keeps others (set_inode_file-Keeps r.1 ip omode)
            (λ _. pure-Keeps others (pos r.0)))))
