-- ===== src/Fs/Icache/Refs.antt =====
-- The inode cache (fs.c) as a count of references for each inode.
use zv.Prelude.{
  ℕ, zero, suc, ◌+◌, ◌≡◌, refl, sym, ◌∙◌, ◌⊎◌, inl, inr, arith, ◌&&◌, ◌==◌, ltb, if◌then◌else◌,
  List, [], ◌∷◌, Option, none, some, get_elem?, set, Result, ok, Bool-cases,
}
use zv.Fs.{Inode, Fs, ◌>>=◌}
use zv.Fs.Content.{load, store_inode}
use zv.Fs.Icache.{Scan, cached, missing, remember, scan, idup}

-- The references to inode `x` that one entry counts.
abbrev pub refs_of : ℕ → Inode → ℕ
refs_of x p = if p.inum == x then p.ref else 0

abbrev pub live : ℕ → Inode → ℕ
live x p = if ltb 0 p.ref && p.inum == x then 1 else 0

abbrev pub total : (Inode → ℕ) → List Inode → ℕ
total f [] = 0
total f (p ∷ ps) = f p + total f ps

-- The references to an inode, over the whole cache, and the entries in use for it.
abbrev pub refs : Fs → ℕ → ℕ
refs s x = total (refs_of x) s.icache

abbrev pub entries : Fs → ℕ → ℕ
entries s x = total (live x) s.icache

pub total-set :
    (f : Inode → ℕ) (ps : List Inode) (j : ℕ) (p q : Inode)
    → get_elem? ps j ≡ some p
    → total f (set ps j q) + f p ≡ total f ps + f q
total-set f [] j p q e = cc
total-set f (x ∷ ps) zero p q e = let same : x ≡ p = ground (arith, e) in rw same (omega arith)
total-set f (x ∷ ps) (suc j) p q e = omega (arith, total-set f ps j p q e)

pub scan_cached :
    (inum k i : ℕ) (e : Option ℕ) (ps : List Inode)
    → scan inum k e ps ≡ cached i
    → (j : ℕ) × (p : Inode) × (i ≡ k + j) × (get_elem? ps j ≡ some p) × (live inum p ≡ 1)
unfolding scan
scan_cached inum k i e [] q = cc
scan_cached inum k i e (p ∷ ps) q = elim (Bool-cases (ltb 0 p.ref && p.inum == inum)) [
  | inl hit ↦ (0, p, ground (arith, q, hit), refl, rw hit refl)
  | inr miss ↦
      let (j, x, at, got, l) =
        scan_cached inum (suc k) i (remember e (p.ref == 0) k) ps (ground (arith, q, miss)) in
      (suc j, x, omega (arith, at), got, l)
]

pub scan_missing :
    (inum k i : ℕ) (e : Option ℕ) (ps : List Inode)
    → scan inum k e ps ≡ missing (some i)
    → ((e ≡ some i)
        ⊎ ((j : ℕ) × (p : Inode) × (i ≡ k + j) × (get_elem? ps j ≡ some p) × (p.ref ≡ 0)))
      × (total (live inum) ps ≡ 0)
unfolding scan
scan_missing inum k i e [] q = (inl (ground (arith, q)), refl)
scan_missing inum k i e (p ∷ ps) q = elim (Bool-cases (ltb 0 p.ref && p.inum == inum)) [
  | inl hit ↦ let f : ◌≡◌ {A = Scan} (cached k) (missing (some i)) = sym (rw hit refl) ∙ q in cc
  | inr miss ↦
      let rest : scan inum (suc k) (remember e (p.ref == 0) k) ps ≡ missing (some i) =
        ground (arith, q, miss) in
      let (from, none_live) = scan_missing inum (suc k) i (remember e (p.ref == 0) k) ps rest in
      (
        (elim from [
          | inr (j, x, at, got, idle) ↦ inr (suc j, x, omega (arith, at), got, idle)
          | inl kept ↦ remembered e kept
        ]),
        rw (miss, none_live) refl,
      )
]
  where
    remembered :
        (o : Option ℕ)
        → remember o (p.ref == 0) k ≡ some i
        → (o ≡ some i)
          ⊎ ((j : ℕ) × (x : Inode) × (i ≡ k + j) × (get_elem? (p ∷ ps) j ≡ some x) × (x.ref ≡ 0))
    remembered (some c) h = inl h
    remembered none h = inr (0, p, ground (arith, h), refl, ground (arith, h))

-- A call changed the entry `i` from `p` to `q`.
pub record Changed (s t : Fs) (i : ℕ) (p q : Inode) : Type 0 where
  pub was : get_elem? s.icache i ≡ some p
  pub now : t ≡ record s { icache = set s.icache i q }

pub idup-Changed :
    (ip r : ℕ) (s t : Fs) (p : Inode)
    → get_elem? s.icache ip ≡ some p
    → idup ip s ≡ ok (r, t)
    → (r ≡ ip) × Changed s t ip p (record p { ref = p.ref + 1 })
unfolding idup load store_inode
idup-Changed ip r s t p got e =
    let done : ◌≡◌ {A = Result (ℕ × Fs)}
        (ok (ip, record s { icache = set s.icache ip (record p { ref = p.ref + 1 }) }))
        (ok (r, t)) =
      sym (rw (got, ◌>>=◌) refl) ∙ e in
    (ground (arith, done), record { was = got; now = ground (arith, done) })
