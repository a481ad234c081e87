-- ===== src/Files/Alloc.antt =====
-- file.c: `filealloc` and `filedup`.
use zv.Prelude.{
  ℕ, zero, suc, ◌+◌, ◌<◌, ◌≡◌, ◌≢◌, refl, ◌∙◌, arith, false, ◌==◌, ltb, if◌then◌else◌, List, [],
  ◌∷◌, length, get_elem?, set, Option, none, some, ok, ℕ_discrete,
}
use zv.Files.{File, Kernel, ◌>>=◌, load_file, store_file, find_unused, filealloc, filedup}
use zv.Files.Refs.{ref_of, ref_of-set}

-- `filedup` of a file in use returns, with one reference more.
pub filedup_lem :
    (f : ℕ) (s : Kernel)
    → ref_of s.files f ≢ 0
    → (files : List File) × (filedup f s ≡ ok (f, record s { files = files }))
      × ((g : ℕ) → ref_of files g ≡ (if g == f then ref_of s.files f + 1 else ref_of s.files g))
unfolding filedup load_file store_file
filedup_lem f s used = go (get_elem? s.files f) refl
  where
    go :
        (r : Option File)
        → get_elem? s.files f ≡ r
        → (files : List File) × (filedup f s ≡ ok (f, record s { files = files }))
          × ((g : ℕ) → ref_of files g ≡ (if g == f then ref_of s.files f + 1 else ref_of s.files g))
    go none h = let unused : ref_of s.files f ≡ 0 = ground (arith, h) in absurd (used unused)
    go (some p) h =
        let more : ltb p.ref 1 ≡ false = ground (arith, h, used) in
        (
          set s.files f (record p { ref = p.ref + 1 }),
          rw (h, ◌>>=◌, more) refl,
          λ g. ref_of-set s.files f g (record p { ref = p.ref + 1 }) p h ∙ ground (arith, h),
        )

before_suc :
    (p : File) (ps : List File) (j : ℕ)
    → p.ref ≢ 0
    → ((c : ℕ) → c < j → ref_of ps c ≢ 0)
    → (c : ℕ) → c < suc j
    → ref_of (p ∷ ps) c ≢ 0
before_suc p ps j used before zero h = used
before_suc p ps j used before (suc c) h = before c (omega arith)

find_unused-some :
    (i f : ℕ) (files : List File)
    → find_unused i files ≡ some f
    → (j : ℕ) × (p : File) × (f ≡ i + j)
      × (get_elem? files j ≡ some p)
      × (p.ref ≡ 0)
      × ((c : ℕ) → c < j → ref_of files c ≢ 0)
unfolding find_unused
find_unused-some i f [] e = ground (arith, e)
find_unused-some i f (p ∷ ps) e = elim (ℕ_discrete p.ref 0) [
  | yes free ↦ (0, p, ground (arith, e, free), refl, free, λ c h. omega arith)
  | no used ↦
      let rest : find_unused (suc i) ps ≡ some f = ground (arith, e, used) in
      let (j, q, at, found, free, before) = find_unused-some (suc i) f ps rest in
      (suc j, q, omega (arith, at), found, free, before_suc p ps j used before)
]

find_unused-none :
    (i : ℕ) (files : List File)
    → find_unused i files ≡ none
    → (c : ℕ) → c < length files
    → ref_of files c ≢ 0
unfolding find_unused
find_unused-none i [] e c h = omega arith
find_unused-none i (p ∷ ps) e zero h = ground (arith, e)
find_unused-none i (p ∷ ps) e (suc c) h =
    let rest : find_unused (suc i) ps ≡ none = ground (arith, e) in
    find_unused-none (suc i) ps rest c (omega arith)

in_table : (files : List File) (f : ℕ) (p : File) → get_elem? files f ≡ some p → f < length files
in_table [] f p e = ground (arith, e)
in_table (x ∷ xs) zero p e = omega arith
in_table (x ∷ xs) (suc f) p e = let ih = in_table xs f p e in omega (arith, ih)

-- What `filealloc` returns, and the table after it.
pub data Allocated (s : Kernel) : Option ℕ → Kernel → Type 0 where
  table_full : ((c : ℕ) → c < length s.files → ref_of s.files c ≢ 0) → Allocated s none s
  first_free :
      {f : ℕ} (p : File)
      → get_elem? s.files f ≡ some p
      → p.ref ≡ 0
      → f < length s.files
      → ((c : ℕ) → c < f → ref_of s.files c ≢ 0)
      → Allocated s (some f) (record s { files = set s.files f (record p { ref = 1 }) })

-- The reference counts after it.
pub set_ref :
    (files : List File) (f : ℕ) (p : File)
    → get_elem? files f ≡ some p
    → (g : ℕ)
    → ref_of (set files f (record p { ref = 1 })) g ≡ (if g == f then 1 else ref_of files g)
set_ref files f p at g = ref_of-set files f g (record p { ref = 1 }) p at

-- `filealloc` returns the first file of the table with no reference, and sets that count to 1: all its other fields, and each other file, stay as they were; it returns none only when each file of the table has a reference.
pub filealloc-Allocated :
    (s : Kernel) → (r : Option ℕ) × (t : Kernel) × (filealloc s ≡ ok (r, t)) × Allocated s r t
unfolding filealloc load_file store_file
filealloc-Allocated s = go (find_unused 0 s.files) refl
  where
    go :
        (r : Option ℕ)
        → find_unused 0 s.files ≡ r
        → (r : Option ℕ) × (t : Kernel) × (filealloc s ≡ ok (r, t)) × Allocated s r t
    go none h = (none, s, rw (filealloc, h) refl, table_full (find_unused-none 0 s.files h))
    go (some f) h =
        let (j, p, at, found, free, before) = find_unused-some 0 f s.files h in
        let here : f ≡ j = omega (arith, at) in
        let found' : get_elem? s.files f ≡ some p = rw here found in
        let q : File = record p { ref = 1 } in
        (
          some f,
          record s { files = set s.files f q },
          rw (filealloc, h, load_file, found', ◌>>=◌) refl,
          first_free p found' free (in_table s.files f p found')
              (λ c lt. before c (omega (arith, here))),
        )
