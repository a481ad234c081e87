-- ===== src/Bio/View.antt =====
-- The cache of bio.c refines the store of Disk: a sector shows one block, in the cache or on the disk,
-- and `bread` returns it, `bwrite` puts it on the disk, and looking up or recycling buffers changes
-- nothing that is shown.
use zv.Prelude.{
  ℕ, ◌≡◌, refl, sym, ◌∙◌, inl, inr, true, false, arith, Bool-cases, if◌then◌else◌, none, some, List,
  [], ◌∷◌, ok,
}
use zv.Block.{Block}
use zv.Bio.{Buf, is_for, find, put, recycle, bget}
use zv.Bio.Unique.{Unique, find_eq, recycle_cases, recycle-nil, bget_cases, find_same}

-- What the kernel sees at a sector of disk 1.
unfoldable pub view : (ℕ → Block) → List Buf → ℕ → Block
view disk [] y = disk y
view disk (b ∷ bs) y =
    if is_for 1 y b then (if b.valid then b.contents else disk y) else view disk bs y

-- An unlocked buffer that holds data holds what is on the disk, or is marked dirty; and a dirty
-- buffer holds data.
abbrev pub Synced : (ℕ → Block) → List Buf → Type 0
Synced disk [] = Unit {0}
Synced disk (b ∷ bs) =
    (b.valid ≡ true → b.busy ≡ false → b.dirty ≡ false → b.dev ≡ 1 → b.contents ≡ disk b.sector)
    × (b.dirty ≡ true → b.valid ≡ true)
    × Synced disk bs

pub view_none :
    (disk : ℕ → Block) (bs : List Buf) (y : ℕ) → find 1 y bs ≡ none → view disk bs y ≡ disk y
unfolding view find
view_none disk [] y e = refl
view_none disk (b ∷ bs) y e = ground (arith, view_none disk bs y)

pub view_some :
    (disk : ℕ → Block) (bs : List Buf) (y : ℕ) (b : Buf)
    → find 1 y bs ≡ some b
    → view disk bs y ≡ (if b.valid then b.contents else disk y)
unfolding view find
view_some disk [] y b e = cc
view_some disk (x ∷ bs) y b e = ground (arith, view_some disk bs y b)

-- A change in place changes what is shown at the buffer's own sector only.
pub view-put :
    (disk : ℕ → Block) (b old : Buf) (bs : List Buf) (y : ℕ)
    → find b.dev b.sector bs ≡ some old
    → view disk (put b bs) y
      ≡ (if is_for 1 y b then (if b.valid then b.contents else disk y) else view disk bs y)
unfolding view put find
view-put disk b old [] y e = cc
view-put disk b old (x ∷ bs) y e = ground (arith, view-put disk b old bs y)

-- Recycling a buffer changes nothing that is shown.
view-recycle :
    (disk : ℕ → Block) (dev sector : ℕ) (bs bs' : List Buf) (y : ℕ)
    → recycle dev sector bs ≡ some bs'
    → find dev sector bs ≡ none
    → Unique bs
    → Synced disk bs
    → view disk bs' y ≡ view disk bs y
unfolding view find
view-recycle disk dev sector [] bs' y e missing u v = absurd (recycle-nil dev sector bs' e)
view-recycle disk dev sector (b ∷ bs) bs' y e missing u v =
    elim (recycle_cases dev sector b bs bs' e) [
      | inl (r, e', q) ↦ rw q (
          ground (
            arith,
            λ (p : find dev sector bs ≡ none). view-recycle disk dev sector bs r y e' p u.1 v.2,
          ))
      | inr (idle, clean, q) ↦ rw q (ground (arith, view_none disk bs y, v.0))
    ]

-- Locking a buffer in place shows the same blocks.
view-lock :
    (disk : ℕ → Block) (b : Buf) (bs : List Buf) (y : ℕ)
    → find b.dev b.sector bs ≡ some b
    → view disk (put (record b { busy = true }) bs) y ≡ view disk bs y
view-lock disk b bs y e =
    view-put disk (record b { busy = true }) b bs y e ∙ elim (Bool-cases (is_for 1 y b)) [
      | inr other ↦ rw other
      | inl own ↦
          let here : find 1 y bs ≡ some b = find_same bs (ground arith) (ground arith) e in
          rw own (sym (view_some disk bs y b here))
    ]

-- `bget` changes nothing that is shown.
pub view-bget :
    (disk : ℕ → Block) (dev sector : ℕ) (bs bs' : List Buf) (y : ℕ)
    → bget dev sector bs ≡ ok bs'
    → Unique bs
    → Synced disk bs
    → view disk bs' y ≡ view disk bs y
view-bget disk dev sector bs bs' y e u v = elim (bget_cases dev sector bs bs' e) [
  | inl (b, found, idle, q) ↦
      let (d, s) = find_eq dev sector bs b found in
      rw q (view-lock disk b bs y (find_same bs d s found))
  | inr (missing, got) ↦ view-recycle disk dev sector bs bs' y got missing u v
]
