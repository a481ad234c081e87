-- ===== src/Fs/Icache/Get.antt =====
-- `iget` (fs.c) adds a reference to an inode and to no other.
use zv.Prelude.{
  ℕ, zero, suc, ◌+◌, ◌≤◌, ◌<◌, ◌≡◌, refl, sym, ◌∙◌, ◌⊎◌, inl, inr, arith, false, ◌==◌,
  if◌then◌else◌, List, [], ◌∷◌, none, some, get_elem?, set, Result, ok, panic, ℕ_discrete,
}
use zv.Fs.{Inode, Fs, ◌>>=◌}
use zv.Fs.Content.{load, store_inode}
use zv.Fs.Icache.{Scan, cached, missing, scan, reuse, iget}
use zv.Fs.Icache.Refs.{
  refs, entries, refs_of, live, total, total-set, Changed, idup-Changed, scan_cached, scan_missing,
}

reuse-Changed :
    (inum ip r : ℕ) (s t : Fs) (p : Inode)
    → get_elem? s.icache ip ≡ some p
    → reuse inum ip s ≡ ok (r, t)
    → (r ≡ ip) × Changed s t ip p (record p { inum = inum; ref = 1; busy = false; valid = false })
unfolding reuse load store_inode
reuse-Changed inum ip r s t p got e =
    let q : Inode = record p { inum = inum; ref = 1; busy = false; valid = false } in
    let done : ◌≡◌ {A = Result (ℕ × Fs)} (ok (ip, record s { icache = set s.icache ip q }))
        (ok (r, t)) =
      sym (rw (got, ◌>>=◌) refl) ∙ e in
    (ground (arith, done), record { was = got; now = ground (arith, done) })

-- The entry that `iget` returns: one in use for the inode, or a free one.
abbrev How : ℕ → Fs → Inode → Inode → Type 0
How inum s p q =
    ((live inum p ≡ 1) × (p.inum ≡ inum) × (q.ref ≡ p.ref + 1))
    ⊎ ((p.ref ≡ 0) × (q.ref ≡ 1) × (total (live inum) s.icache ≡ 0))

-- What a call of `iget` that returns has done.
iget_cases :
    (inum i : ℕ) (s t : Fs)
    → iget inum s ≡ ok (i, t)
    → (p : Inode) × (q : Inode) × Changed s t i p q × (q.inum ≡ inum) × How inum s p q
unfolding iget
iget_cases inum i s t e = go (scan inum 0 none s.icache) refl
  where
    go :
        (o : Scan)
        → scan inum 0 none s.icache ≡ o
        → (p : Inode) × (q : Inode) × Changed s t i p q × (q.inum ≡ inum) × How inum s p q
    go (cached j) w =
        let (k, p, at, got, l) = scan_cached inum 0 j none s.icache w in
        let here : k ≡ j = omega (arith, at) in
        let (r, c) = idup-Changed j i s t p (rw (← here) got) (sym (rw (iget, w) refl) ∙ e) in
        let same : p.inum ≡ inum = ground (arith, l) in
        (p, record p { ref = p.ref + 1 }, rw r c, same, inl (l, same, refl))
    go (missing none) w =
        let h : ◌≡◌ {A = Result (ℕ × Fs)} (panic "iget: no inodes") (ok (i, t)) =
          sym (rw (iget, w) refl) ∙ e in
        cc
    go (missing (some j)) w =
        let (from, none_live) = scan_missing inum 0 j none s.icache w in
        elim from [
          | inl absurd_case ↦ cc
          | inr (k, p, at, got, idle) ↦
              let here : k ≡ j = omega (arith, at) in
              let (r, c) =
                reuse-Changed inum j i s t p (rw (← here) got) (sym (rw (iget, w) refl) ∙ e) in
              (
                p,
                record p { inum = inum; ref = 1; busy = false; valid = false },
                rw r c,
                refl,
                inr (idle, refl, none_live),
              )
        ]

pub get-set :
    (ps : List Inode) (j : ℕ) (p q : Inode)
    → get_elem? ps j ≡ some p
    → get_elem? (set ps j q) j ≡ some q
get-set [] j p q e = cc
get-set (x ∷ ps) zero p q e = refl
get-set (x ∷ ps) (suc j) p q e = get-set ps j p q e

module _ (s t : Fs) (i : ℕ) (p q : Inode) (c : Changed s t i p q) where
  pub Changed-total : (f : Inode → ℕ) → total f t.icache + f p ≡ total f s.icache + f q
  Changed-total f = rw c.now (total-set f s.icache i p q c.was)

  pub Changed-got : get_elem? t.icache i ≡ some q
  Changed-got = rw c.now (get-set s.icache i p q c.was)

-- `iget` counts one reference more to the inode, and to no other inode; where no inode had two
-- entries in use, none has; and the entry that it returns is in use for the inode.
pub iget-refs :
    (inum i : ℕ) (s t : Fs)
    → ((x : ℕ) → entries s x ≤ 1)
    → iget inum s ≡ ok (i, t)
    → ((x : ℕ) → refs t x ≡ refs s x + (if x == inum then 1 else 0))
      × ((x : ℕ) → entries t x ≤ 1)
      × (q : Inode) × (get_elem? t.icache i ≡ some q)
      × (q.inum ≡ inum)
      × (0 < q.ref)
iget-refs inum i s t one e =
    let (p, q, c, at, how) = iget_cases inum i s t e in
    (
      (λ x. counted x p q (Changed-total s t i p q c (refs_of x)) how at),
      (λ x. single x p q (Changed-total s t i p q c (live x)) how at (one x)),
      q,
      Changed-got s t i p q c,
      at,
      elim how [
        | inl (l, same, up) ↦ omega (arith, up)
        | inr (idle, first, none_live) ↦ omega (arith, first)
      ],
    )
  where
    counted :
        (x : ℕ) (p q : Inode)
        → refs t x + refs_of x p ≡ refs s x + refs_of x q
        → How inum s p q
        → q.inum ≡ inum
        → refs t x ≡ refs s x + (if x == inum then 1 else 0)
    counted x p q h how at = elim how [
      | inl (l, same, up) ↦ ground (arith, h, same, up, at)
      | inr (idle, first, none_live) ↦ ground (arith, h, idle, first, at)
    ]

    single :
        (x : ℕ) (p q : Inode)
        → entries t x + live x p ≡ entries s x + live x q
        → How inum s p q
        → q.inum ≡ inum
        → entries s x ≤ 1
        → entries t x ≤ 1
    single x p q h how at le = elim how [
      | inl (l, same, up) ↦ ground (arith, h, same, up, at, l)
      | inr (idle, first, none_live) ↦ elim (ℕ_discrete x inum) [
        | yes here ↦ let gone : entries s x ≡ 0 = rw here none_live in ground (arith, h, gone)
        | no other ↦ ground (arith, h, at, other, idle)
      ]
    ]
