-- ===== src/Files/Refs.antt =====
-- file.c: the reference counts of the table of open files.
use zv.Prelude.{
  ℕ, zero, suc, ◌+◌, ◌≡◌, refl, sym, ap, ◌∙◌, arith, ◌==◌, if◌then◌else◌, List, [], ◌∷◌, get_elem?,
  set, Option, none, some, Result, ok, panic, waits,
}
use zv.Fs.{Fs, M}
use zv.Files.{File, Kernel, K, ◌>>=◌, lift, load_file}

-- Inversion of a sequence that returned.
pub bind_ok {ℓ κ} :
    {A : Type ℓ} {B : Type κ} (m : K A) (f : A → K B) (s : Kernel) (b : B) (t : Kernel)
    → (m >>= f) s ≡ ok (b, t)
    → (a : A) × (u : Kernel) × (m s ≡ ok (a, u)) × (f a u ≡ ok (b, t))
bind_ok {A} {B} m f s b t e = go (m s) refl
  where
    go :
        (r : Result (A × Kernel))
        → m s ≡ r
        → (a : A) × (u : Kernel) × (m s ≡ ok (a, u)) × (f a u ≡ ok (b, t))
    go (ok (a, u)) q = (a, u, q, sym (rw (q, ◌>>=◌)) ∙ e)
    go (panic x) q =
        let h : ◌≡◌ {A = Result (B × Kernel)} (panic x) (ok (b, t)) = sym (rw (q, ◌>>=◌)) ∙ e in cc
    go waits q =
        let h : ◌≡◌ {A = Result (B × Kernel)} waits (ok (b, t)) = sym (rw (q, ◌>>=◌)) ∙ e in cc

-- A sequence whose first part has returned.
pub bind_at {ℓ κ} :
    {A : Type ℓ} {B : Type κ} (m : K A) (f : A → K B) (s : Kernel) (a : A) (u : Kernel)
    (r : Result (B × Kernel))
    → m s ≡ ok (a, u)
    → (m >>= f) s ≡ r
    → f a u ≡ r
bind_at m f s a u r q e = sym (rw (q, ◌>>=◌) refl) ∙ e

-- The open files of the table and of the process are the same.
abbrev pub SameFiles : Kernel → Kernel → Type 0
SameFiles s t = (t.files ≡ s.files) × (t.ofile ≡ s.ofile)

-- A call of the file system leaves the open files alone.
pub lift-SameFiles {ℓ} :
    {A : Type ℓ} (m : M A) (s : Kernel) (a : A) (t : Kernel) → lift m s ≡ ok (a, t) → SameFiles s t
unfolding lift
lift-SameFiles {A} m s a t e = go (m s.fs) refl
  where
    go : (r : Result (A × Fs)) → m s.fs ≡ r → SameFiles s t
    go (ok (b, u)) q =
        let h : ◌≡◌ {A = Result (A × Kernel)} (ok (b, record s { fs = u })) (ok (a, t)) =
          sym (rw (q, lift)) ∙ e in
        let here : record s { fs = u } ≡ t = cc in
        (sym (ap (λ (k : Kernel). k.files) here), sym (ap (λ (k : Kernel). k.ofile) here))
    go (panic x) q =
        let h : ◌≡◌ {A = Result (A × Kernel)} (panic x) (ok (a, t)) = sym (rw (q, lift)) ∙ e in
        ground (arith, h)
    go waits q =
        let h : ◌≡◌ {A = Result (A × Kernel)} waits (ok (a, t)) = sym (rw (q, lift)) ∙ e in
        ground (arith, h)

-- `f->ref`, 0 where there is no such file.
abbrev pub ref_of : List File → ℕ → ℕ
ref_of files f = elim (get_elem? files f) [ some p ↦ p.ref | none ↦ 0 ]

pub ref_of-set :
    (files : List File) (f g : ℕ) (p q : File)
    → get_elem? files f ≡ some q
    → ref_of (set files f p) g ≡ (if g == f then p.ref else ref_of files g)
ref_of-set [] f g p q e = ground (arith, e)
ref_of-set (x ∷ xs) zero zero p q e = ground arith
ref_of-set (x ∷ xs) zero (suc g) p q e = ground arith
ref_of-set (x ∷ xs) (suc f) zero p q e = ground arith
ref_of-set (x ∷ xs) (suc f) (suc g) p q e = let ih = ref_of-set xs f g p q e in ground (arith, ih)

-- How often the descriptors name the file.
abbrev pub is_file : ℕ → Option ℕ → ℕ
is_file f (some g) = if g == f then 1 else 0
is_file f none = 0

abbrev pub count_of : ℕ → List (Option ℕ) → ℕ
count_of f [] = 0
count_of f (o ∷ os) = is_file f o + count_of f os

pub count_of-set :
    (os : List (Option ℕ)) (fd g : ℕ) (old new : Option ℕ)
    → get_elem? os fd ≡ some old
    → count_of g (set os fd new) + is_file g old ≡ count_of g os + is_file g new
count_of-set [] fd g old new e = ground (arith, e)
count_of-set (o ∷ os) zero g old new e = ground (arith, e)
count_of-set (o ∷ os) (suc fd) g old new e =
    let ih = count_of-set os fd g old new e in omega (arith, ih)

-- Each file has as many references as there are descriptors for it here, and elsewhere.
pub record Counted (others : ℕ → ℕ) (s : Kernel) : Type 0 where
  pub counted : (f : ℕ) → ref_of s.files f ≡ others f + count_of f s.ofile

pub load_file_ok :
    (f : ℕ) (s : Kernel) (p : File) (t : Kernel)
    → load_file f s ≡ ok (p, t)
    → (get_elem? s.files f ≡ some p) × (t ≡ s)
unfolding load_file
load_file_ok f s p t e = go (get_elem? s.files f) refl
  where
    go : (r : Option File) → get_elem? s.files f ≡ r → (get_elem? s.files f ≡ some p) × (t ≡ s)
    go (some q) h = ground (arith, h, e)
    go none h = ground (arith, h, e)
