-- ===== src/Files/Close.antt =====
-- file.c: `fileclose` and the references.
use zv.Prelude.{
  ℕ, ◌-◌, ◌≡◌, ◌≢◌, refl, sym, ap, ◌∙◌, arith, Bool, true, false, ◌==◌, ltb, if◌then◌else◌,
  get_elem?, set, some, ok, dec_lt,
}
use zv.Fs.{M}
use zv.Fs.Trans.{begin_op, commit_op}
use zv.Fs.Free.{iput}
use zv.Fs.Namex.{Env}
use zv.Files.{
  File, FileType, fd_none, fd_pipe, fd_inode, Kernel, fail, ◌>>◌, lift, load_file, store_file,
  close_pipe, release_file, fileclose,
}
use zv.Files.Refs.{bind_ok, SameFiles, lift-SameFiles, ref_of, ref_of-set, load_file_ok}

close_pipe-SameFiles :
    (env : Env) (p : ℕ) (w : Bool) (s t : Kernel)
    → close_pipe env p w s ≡ ok (tt, t)
    → SameFiles s t
unfolding close_pipe
close_pipe-SameFiles env p w s t e = ground (arith, e)

three_lifts :
    (m n k : M (Unit {0})) (s t : Kernel)
    → (lift m >> (lift n >> lift k)) s ≡ ok (tt, t)
    → SameFiles s t
three_lifts m n k s t h =
    let (a, u, e1, rest) = bind_ok (lift m) (λ _. lift n >> lift k) s tt t h in
    let (b, v, e2, e3) = bind_ok (lift n) (λ _. lift k) u tt t rest in
    let (f1, o1) = lift-SameFiles m s a u e1 in
    let (f2, o2) = lift-SameFiles n u b v e2 in
    let (f3, o3) = lift-SameFiles k v tt t e3 in (f3 ∙ f2 ∙ f1, o3 ∙ o2 ∙ o1)

release_file-SameFiles :
    (env : Env) (p : File) (y : FileType) (s t : Kernel)
    → release_file env p y s ≡ ok (tt, t)
    → SameFiles s t
unfolding release_file
release_file-SameFiles env p fd_none s t e = ground (arith, e)
release_file-SameFiles env p fd_pipe s t e = close_pipe-SameFiles env p.pipe p.writable s t e
release_file-SameFiles env p fd_inode s t e =
    three_lifts begin_op (iput env.dev.reads p.ip) commit_op s t e

store_file-Kernel :
    (f : ℕ) (p : File) (s t : Kernel)
    → store_file f p s ≡ ok (tt, t)
    → t ≡ record s { files = set s.files f p }
unfolding store_file
store_file-Kernel f p s t e = ground (arith, e)

-- `fileclose` takes one reference from the file, and touches no other file and no descriptor.
abbrev pub Dropped : ℕ → Kernel → Kernel → Type 0
Dropped f s t =
    (t.ofile ≡ s.ofile)
    × ((g : ℕ) → ref_of t.files g ≡ (if g == f then ref_of s.files f - 1 else ref_of s.files g))

close_last :
    (env : Env) (f : ℕ) (s t : Kernel) (p q : File)
    → get_elem? s.files f ≡ some p
    → p.ref ≡ 1
    → q.ref ≡ 0
    → (store_file f q >> release_file env p p.type) s ≡ ok (tt, t)
    → Dropped f s t
close_last env f s t p q found one none_left e =
    let (a, u, e1, e2) = bind_ok (store_file f q) (λ _. release_file env p p.type) s tt t e in
    let stored : u ≡ record s { files = set s.files f q } = store_file-Kernel f q s u e1 in
    let (files, ofile) = release_file-SameFiles env p p.type u t e2 in
    let files' : t.files ≡ set s.files f q = files ∙ ap (λ (k : Kernel). k.files) stored in
    (
      ofile ∙ ap (λ (k : Kernel). k.ofile) stored,
      λ g.
          ap (λ l. ref_of l g) files'
          ∙ ref_of-set s.files f g q p found
          ∙ ground (arith, found, one, none_left),
    )

pub fileclose_lem :
    (env : Env) (f : ℕ) (s t : Kernel)
    → fileclose env f s ≡ ok (tt, t)
    → (ref_of s.files f ≢ 0) × Dropped f s t
unfolding fileclose
fileclose_lem env f s t e =
    let (p, u, e1, e2) = bind_ok (load_file f) _ s tt t e in
    let (found, same) = load_file_ok f s p u e1 in close p u found same e2
  where
    close :
        (p : File) (u : Kernel)
        → get_elem? s.files f ≡ some p
        → u ≡ s
        → (if ltb p.ref 1
              then fail "fileclose"
              else (if ltb 1 p.ref
                  then store_file f (record p { ref = p.ref - 1 })
                  else (store_file f (record p { ref = 0; type = fd_none })
                      >> release_file env p p.type)))
            u
          ≡ ok (tt, t)
        → (ref_of s.files f ≢ 0) × Dropped f s t
    close p u found same e2 = elim (dec_lt p.ref 1) [
      | yes low ↦ ground (arith, low, e2)
      | no high ↦ elim (dec_lt 1 p.ref) [
        | yes shared ↦
            let a : ltb p.ref 1 ≡ false = ground (arith, high) in
            let b : ltb 1 p.ref ≡ true = ground (arith, shared) in
            let e3 : store_file f (record p { ref = p.ref - 1 }) u ≡ ok (tt, t) =
              sym (rw (a, b) refl) ∙ e2 in
            let stored : t ≡ record s { files = set s.files f (record p { ref = p.ref - 1 }) } =
              store_file-Kernel f _ s t (rw same at e3) in
            (
              ground (arith, found, high),
              (
                ap (λ (k : Kernel). k.ofile) stored,
                λ g.
                    ap (λ (k : Kernel). ref_of k.files g) stored
                    ∙ ref_of-set s.files f g (record p { ref = p.ref - 1 }) p found
                    ∙ ground (arith, found),
              ),
            )
        | no last ↦
            let a : ltb p.ref 1 ≡ false = ground (arith, high) in
            let b : ltb 1 p.ref ≡ false = ground (arith, last) in
            let q : File = record p { ref = 0; type = fd_none } in
            let e3 : (store_file f q >> release_file env p p.type) u ≡ ok (tt, t) =
              sym (rw (a, b) refl) ∙ e2 in
            let one : p.ref ≡ 1 = omega arith in
            (ground (arith, found, high), close_last env f s t p q found one refl (rw same at e3))
      ]
    ]
