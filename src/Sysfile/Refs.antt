-- ===== src/Sysfile/Refs.antt =====
-- sysfile.c: the descriptors and the reference counts.
use zv.Prelude.{
  ℕ, zero, suc, ◌+◌, ◌<◌, ◌≡◌, ◌≢◌, refl, ap, ◌∙◌, arith, true, false, ◌==◌, ltb, if◌then◌else◌,
  List, [], ◌∷◌, get_elem?, set, Option, none, some, ok, dec_lt, ℤ, pos, negsuc,
}
use zv.Syscall.{argint}
use zv.Files.{File, Kernel, ◌>>=◌}
use zv.Files.Refs.{ref_of, count_of, count_of-set, Counted}
use zv.Files.Alloc.{filedup_lem}
use zv.Sysfile.{nofile, file_at, argfd, find_fd, fdalloc, sys_dup}

file_at-some :
    (os : List (Option ℕ)) (fd f : ℕ) → file_at os fd ≡ some f → get_elem? os fd ≡ some (some f)
file_at-some [] fd f e = ground (arith, e)
file_at-some (o ∷ os) zero f e = ground (arith, e)
file_at-some (o ∷ os) (suc fd) f e = file_at-some os fd f e

file_at-none :
    (os : List (Option ℕ)) (fd f : ℕ) → file_at os fd ≡ none → get_elem? os fd ≢ some (some f)
file_at-none [] fd f e = λ h. ground (arith, h)
file_at-none (o ∷ os) zero f e = λ h. ground (arith, e, h)
file_at-none (o ∷ os) (suc fd) f e = file_at-none os fd f e

-- The argument `n` is no descriptor of a file.
abbrev pub NamesNone : ℕ → Kernel → Type 0
NamesNone n s =
    (fd f : ℕ) → argint s.user n ≡ some fd → fd < nofile → get_elem? s.ofile fd ≢ some (some f)

-- The argument `n` is the descriptor `fd` of the file `f`.
pub record Names (n : ℕ) (s : Kernel) (fd f : ℕ) : Type 0 where
  pub given : argint s.user n ≡ some fd
  pub inside : fd < nofile
  pub file : get_elem? s.ofile fd ≡ some (some f)

-- `argfd` finds no file, or that of the descriptor in the argument.
pub data Argfd (n : ℕ) (s : Kernel) : Type 0 where
  no_file : argfd n s ≡ ok (none, s) → NamesNone n s → Argfd n s
  open_file : (fd f : ℕ) → argfd n s ≡ ok (some (fd, f), s) → Names n s fd f → Argfd n s

pub argfd_lem : (n : ℕ) (s : Kernel) → Argfd n s
unfolding argfd
argfd_lem n s = go (argint s.user n) refl
  where
    same : {a b : ℕ} → argint s.user n ≡ some a → argint s.user n ≡ some b → a ≡ b
    same g h = ground (arith, g, h)

    file :
        (fd : ℕ)
        → argint s.user n ≡ some fd
        → fd < nofile
        → ltb fd nofile ≡ true
        → (o : Option ℕ) → file_at s.ofile fd ≡ o
        → Argfd n s
    file fd h inside lt none q = no_file (rw (argfd, h, lt, q) refl) (λ d f g below there.
        file_at-none s.ofile fd f q (ap (λ x. get_elem? s.ofile x) (same h g) ∙ there))
    file fd h inside lt (some f) q =
        open_file fd f (rw (argfd, h, lt, q) refl)
          (record { given = h; inside = inside; file = file_at-some s.ofile fd f q })

    go : (r : Option ℕ) → argint s.user n ≡ r → Argfd n s
    go none h = no_file (rw (argfd, h) refl) (λ d f g below there. ground (arith, h, g))
    go (some fd) h = elim (dec_lt fd nofile) [
      | yes lt ↦ file fd h lt (ground (arith, lt)) (file_at s.ofile fd) refl
      | no ge ↦
          let out : ltb fd nofile ≡ false = ground (arith, ge) in
          no_file (rw (argfd, h, out) refl) (λ d f g below there. ge (rw (same h g) below))
    ]

-- `fdalloc` finds the first free descriptor.
find_fd-some :
    (i fd : ℕ) (os : List (Option ℕ))
    → find_fd i os ≡ some fd
    → (j : ℕ) × (fd ≡ i + j) × (get_elem? os j ≡ some none)
unfolding find_fd
find_fd-some i fd [] e = ground (arith, e)
find_fd-some i fd (some f ∷ os) e =
    let (j, at, free) = find_fd-some (suc i) fd os e in (suc j, omega (arith, at), free)
find_fd-some i fd (none ∷ os) e = (0, ground (arith, e), refl)

pub find_fd-free :
    (os : List (Option ℕ)) (fd : ℕ) → find_fd 0 os ≡ some fd → get_elem? os fd ≡ some none
find_fd-free os fd e =
    let (j, at, free) = find_fd-some 0 fd os e in
    let here : fd ≡ j = omega (arith, at) in rw here free

find_fd-first :
    (i fd : ℕ) (os : List (Option ℕ))
    → find_fd i os ≡ some fd
    → (j : ℕ) → i + j < fd
    → get_elem? os j ≢ some none
unfolding find_fd
find_fd-first i fd [] e j lt h = ground (arith, e)
find_fd-first i fd (none ∷ os) e j lt h = ground (arith, e, lt)
find_fd-first i fd (some f ∷ os) e zero lt h = ground (arith, h)
find_fd-first i fd (some f ∷ os) e (suc j) lt h =
    find_fd-first (suc i) fd os e j (omega (arith, lt)) h

find_fd-none :
    (i : ℕ) (os : List (Option ℕ)) → find_fd i os ≡ none → (j : ℕ) → get_elem? os j ≢ some none
unfolding find_fd
find_fd-none i [] e j h = ground (arith, h)
find_fd-none i (none ∷ os) e j h = ground (arith, e)
find_fd-none i (some f ∷ os) e zero h = ground (arith, h)
find_fd-none i (some f ∷ os) e (suc j) h = find_fd-none (suc i) os e j h

-- A descriptor counts.
pub count_of-used :
    (os : List (Option ℕ)) (fd f : ℕ) → get_elem? os fd ≡ some (some f) → count_of f os ≢ 0
count_of-used [] fd f e = ground (arith, e)
count_of-used (o ∷ os) zero f e = ground (arith, e)
count_of-used (o ∷ os) (suc fd) f e = let ih = count_of-used os fd f e in omega (arith, ih)

-- What `sys_dup` returns, and the state after it.
pub data Duplicated (s : Kernel) : ℤ → Kernel → Type 0 where
  not_open : NamesNone 0 s → Duplicated s (negsuc 0) s
  no_room : ((fd : ℕ) → get_elem? s.ofile fd ≢ some none) → Duplicated s (negsuc 0) s
  duplicated :
      (old : ℕ) {fd f : ℕ} {files : List File}
      → Names 0 s old f
      → get_elem? s.ofile fd ≡ some none
      → ((j : ℕ) → j < fd → get_elem? s.ofile j ≢ some none)
      → ((g : ℕ) → ref_of files g ≡ (if g == f then ref_of s.files f + 1 else ref_of s.files g))
      → Duplicated s (pos fd) (record s { files = files; ofile = set s.ofile fd (some f) })

module _ (others : ℕ → ℕ) where
  -- A descriptor more for `f`, and a reference more.
  Counted-more :
      (s : Kernel) (f fd : ℕ) (files : List File) (ofile : List (Option ℕ))
      → Counted others s
      → get_elem? s.ofile fd ≡ some none
      → ofile ≡ set s.ofile fd (some f)
      → ((g : ℕ) → ref_of files g ≡ (if g == f then ref_of s.files f + 1 else ref_of s.files g))
      → Counted others (record s { files = files; ofile = ofile })
  Counted-more s f fd files ofile c free e refs = record {
    counted = λ g.
        let more = count_of-set s.ofile fd g none (some f) free in
        let both = c.counted g in refs g ∙ rw e (ground (arith, more, both, c.counted f));
  }

  -- If each file has as many references as there are descriptors for it, then so it is after `sys_dup`, which returns.  If its argument is a descriptor of a file and a descriptor is free, the result is the lowest free one, which then names that file, and the file has one reference more; otherwise the result is -1 and nothing changes.
  pub sys_dup-Counted :
      (s : Kernel)
      → Counted others s
      → (r : ℤ) × (t : Kernel) × (sys_dup s ≡ ok (r, t)) × Counted others t × Duplicated s r t
  unfolding sys_dup fdalloc
  sys_dup-Counted s c = go (argfd_lem 0 s)
    where
      Goal : Type 0
      Goal = (r : ℤ) × (t : Kernel) × (sys_dup s ≡ ok (r, t)) × Counted others t × Duplicated s r t

      dup :
          (old f : ℕ)
          → argfd 0 s ≡ ok (some (old, f), s)
          → Names 0 s old f
          → (r : Option ℕ) → find_fd 0 s.ofile ≡ r
          → Goal
      dup old f e named none q = (
        negsuc 0,
        s,
        rw (sys_dup, ◌>>=◌, e, fdalloc, q) refl,
        c,
        no_room (find_fd-none 0 s.ofile q),
      )
      dup old f e named (some fd) q =
          let s' : Kernel = record s { ofile = set s.ofile fd (some f) } in
          let used : ref_of s.files f ≢ 0 =
            λ z. count_of-used s.ofile old f named.file (omega (arith, c.counted f, z)) in
          let (files, done, refs) = filedup_lem f s' used in
          let free : get_elem? s.ofile fd ≡ some none = find_fd-free s.ofile fd q in
          (
            pos fd,
            record s' { files = files },
            rw (sys_dup, ◌>>=◌, e, fdalloc, q, done) refl,
            Counted-more s f fd files (set s.ofile fd (some f)) c free refl refs,
            duplicated old named free (λ j lt. find_fd-first 0 fd s.ofile q j (omega arith)) refs,
          )

      go : Argfd 0 s → Goal
      go (no_file e names) = (negsuc 0, s, rw (sys_dup, ◌>>=◌, e) refl, c, not_open names)
      go (open_file old f e named) = dup old f e named (find_fd 0 s.ofile) refl
