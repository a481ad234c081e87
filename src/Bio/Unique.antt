-- ===== src/Bio/Unique.antt =====
-- No two buffers of the cache (bio.c) hold the same sector.
use zv.Prelude.{
  ℕ, ◌≡◌, ◌≢◌, refl, ◌∙◌, ◌⊎◌, inl, inr, true, false, arith, ==_iff, Option-cases, if◌then◌else◌,
  Option, none, some, List, [], ◌∷◌, ok,
}
use zv.Bio.{Buf, no_dev, is_for, find, put, recycle, recycled, bget}

-- Each buffer is the only one for its device and sector, unless it is unused.
abbrev pub Unique : List Buf → Type 0
Unique [] = Unit {0}
Unique (b ∷ bs) = ((b.dev ≡ no_dev) ⊎ (find b.dev b.sector bs ≡ none)) × Unique bs

pub find_eq :
    (dev sector : ℕ) (bs : List Buf) (b : Buf)
    → find dev sector bs ≡ some b
    → (b.dev ≡ dev) × (b.sector ≡ sector)
unfolding find
find_eq dev sector [] b e = cc
find_eq dev sector (x ∷ bs) b e =
    ground (arith, find_eq dev sector bs b, ==_iff x.dev dev, ==_iff x.sector sector)

-- What is found after a change in place.
pub find-put :
    (dev sector : ℕ) (b : Buf) (bs : List Buf)
    → find dev sector (put b bs) ≡ (
        if is_for dev sector b
        then elim (find dev sector bs) [ some _ ↦ some b | none ↦ none ]
        else find dev sector bs)
unfolding find put
find-put dev sector b [] = ground arith
find-put dev sector b (x ∷ bs) = ground (arith, find-put dev sector b bs)

pub put-Unique : (b : Buf) (bs : List Buf) → Unique bs → Unique (put b bs)
unfolding find put
put-Unique b [] u = tt
put-Unique b (x ∷ bs) u = ground (arith, put-Unique b bs u.1, find-put x.dev x.sector b bs)

-- Either a buffer further down is recycled, or this one, which is then neither locked nor dirty.
pub recycle_cases :
    (dev sector : ℕ) (b : Buf) (bs bs' : List Buf)
    → recycle dev sector (b ∷ bs) ≡ some bs'
    → ((r : List Buf) × (recycle dev sector bs ≡ some r) × (bs' ≡ b ∷ r))
      ⊎ ((b.busy ≡ false) × (b.dirty ≡ false) × (bs' ≡ recycled dev sector b ∷ bs))
unfolding recycle
recycle_cases dev sector b bs bs' e = elim (Option-cases (recycle dev sector bs)) [
  | inl lost ↦ inr (ground (arith, lost))
  | inr (r, found) ↦ inl (r, found, ground (arith, found))
]

pub recycle-nil : (dev sector : ℕ) (bs' : List Buf) → recycle dev sector [] ≢ some bs'
unfolding recycle
recycle-nil dev sector bs' e = cc

find-recycle_other :
    (dev sector d s : ℕ) (bs bs' : List Buf)
    → recycle dev sector bs ≡ some bs'
    → find d s bs ≡ none
    → (d ≡ dev → s ≢ sector)
    → find d s bs' ≡ none
unfolding find
find-recycle_other dev sector d s [] bs' e missing ne = absurd (recycle-nil dev sector bs' e)
find-recycle_other dev sector d s (b ∷ bs) bs' e missing ne =
    elim (recycle_cases dev sector b bs bs' e) [
      | inl (r, e', q) ↦ rw q (
          ground
            (arith, λ (p : find d s bs ≡ none). find-recycle_other dev sector d s bs r e' p ne))
      | inr (clean, idle, q) ↦ rw q (ground arith)
    ]

pub recycle-Unique :
    (dev sector : ℕ) (bs bs' : List Buf)
    → recycle dev sector bs ≡ some bs'
    → find dev sector bs ≡ none
    → Unique bs
    → Unique bs'
unfolding find
recycle-Unique dev sector [] bs' e missing u = absurd (recycle-nil dev sector bs' e)
recycle-Unique dev sector (b ∷ bs) bs' e missing u = elim (recycle_cases dev sector b bs bs' e) [
  | inl (r, e', q) ↦
      let rest : Unique r = recycle-Unique dev sector bs r e' (ground arith) u.1 in
      rw q (
        (elim u.0 [
          | inl free ↦ inl free
          | inr alone ↦
              inr (find-recycle_other dev sector b.dev b.sector bs r e' alone (ground arith))
        ]),
        rest,
      )
  | inr (clean, idle, q) ↦ rw q (inr (ground arith), u.1)
]

pub recycle_found :
    (dev sector : ℕ) (bs bs' : List Buf)
    → recycle dev sector bs ≡ some bs'
    → find dev sector bs ≡ none
    → (b : Buf) × (find dev sector bs' ≡ some b)
      × (b.busy ≡ true)
      × (b.valid ≡ false)
      × (b.dirty ≡ false)
unfolding find
recycle_found dev sector [] bs' e missing = absurd (recycle-nil dev sector bs' e)
recycle_found dev sector (b ∷ bs) bs' e missing = elim (recycle_cases dev sector b bs bs' e) [
  | inl (r, e', q) ↦
      let (x, at, l, v, d) = recycle_found dev sector bs r e' (ground arith) in
      (x, rw q (ground (arith, at)), l, v, d)
  | inr (idle, clean, q) ↦ (
    recycled dev sector b,
    rw q (ground (arith, ==_iff dev dev, ==_iff sector sector)),
    refl,
    refl,
    refl,
  )
]

-- What `bget` does when it does not wait: it locks the sector's buffer, or recycles one.
pub bget_cases :
    (dev sector : ℕ) (bs bs' : List Buf)
    → bget dev sector bs ≡ ok bs'
    → ((b : Buf) × (find dev sector bs ≡ some b)
        × (b.busy ≡ false)
        × (bs' ≡ put (record b { busy = true }) bs))
      ⊎ ((find dev sector bs ≡ none) × (recycle dev sector bs ≡ some bs'))
unfolding bget
bget_cases dev sector bs bs' e = elim (Option-cases (find dev sector bs)) [
  | inr (b, found) ↦ inl (b, found, ground (arith, found), ground (arith, found))
  | inl missing ↦ elim (Option-cases (recycle dev sector bs)) [
    | inl full ↦ ground (arith, missing, full)
    | inr (r, got) ↦ inr (missing, ground (arith, missing, got))
  ]
]

-- `bget` keeps every sector in one buffer at most.
pub bget-Unique :
    (dev sector : ℕ) (bs bs' : List Buf) → bget dev sector bs ≡ ok bs' → Unique bs → Unique bs'
bget-Unique dev sector bs bs' e u = elim (bget_cases dev sector bs bs' e) [
  | inl (b, found, idle, q) ↦ rw q (put-Unique _ bs u)
  | inr (missing, got) ↦ recycle-Unique dev sector bs bs' got missing u
]

-- A look-up under another spelling of the same device and sector.
pub find_same :
    {dev sector d s : ℕ} (bs : List Buf) {r : Option Buf}
    → d ≡ dev
    → s ≡ sector
    → find dev sector bs ≡ r
    → find d s bs ≡ r
find_same bs p q e = rw (p, q) e

pub find-put_self :
    (b old : Buf) (bs : List Buf)
    → find b.dev b.sector bs ≡ some old
    → find b.dev b.sector (put b bs) ≡ some b
find-put_self b old bs e =
    find-put b.dev b.sector b bs
    ∙ rw e (ground (arith, ==_iff b.dev b.dev, ==_iff b.sector b.sector))

-- The buffer that `bget` returns is there, and it is locked.
pub bget-find :
    (dev sector : ℕ) (bs bs' : List Buf)
    → bget dev sector bs ≡ ok bs'
    → (b : Buf) × (find dev sector bs' ≡ some b) × (b.busy ≡ true)
bget-find dev sector bs bs' e = elim (bget_cases dev sector bs bs' e) [
  | inl (b, found, idle, q) ↦
      let (d, s) = find_eq dev sector bs b found in
      (
        record b { busy = true },
        rw q (
            find-put dev sector (record b { busy = true }) bs
            ∙ rw found (ground (arith, d, s, ==_iff dev dev, ==_iff sector sector))),
        refl,
      )
  | inr (missing, got) ↦
      let (b, found, l, v, d) = recycle_found dev sector bs bs' got missing in (b, found, l)
]
