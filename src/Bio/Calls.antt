-- ===== src/Bio/Calls.antt =====
-- `bread`, `bwrite` and `brelse` (bio.c) as operations of the store of Disk.
use zv.Prelude.{
  ℕ, ◌≡◌, refl, sym, ap, ◌∙◌, ◌⊎◌, inl, inr, true, false, arith, ==_iff, Bool-cases, Option-cases,
  some, List, ok, bind_returns,
}
use zv.Block.{Block}
use zv.Bio.{Buf, Bcache, is_for, find, put, bget, transfer, iderw, deref, bread}
use zv.Bio.Unique.{find_eq, find_same, bget-find, bget-Unique, put-Unique, find-put_self}
use zv.Bio.View.{view, view_some, view-put, view-bget}
use zv.Bio.Synced.{Inv, Synced-find, Synced-put, bget-Synced}

pub deref-some :
    (dev sector : ℕ) (bs : List Buf) (b : Buf)
    → deref dev sector bs ≡ ok b
    → find dev sector bs ≡ some b
unfolding deref
deref-some dev sector bs b e = elim (Option-cases (find dev sector bs)) [
  | inl missing ↦ ground (arith, missing)
  | inr (x, found) ↦ ground (arith, found)
]

pub iderw_cases :
    (b : Buf) (c : Bcache) (r : Buf × Bcache)
    → iderw b c ≡ ok r
    → (b.busy ≡ true) × (b.dev ≡ 1) × (r ≡ transfer b c)
unfolding iderw
iderw_cases b c r e = ground (arith, ==_iff b.dev 1)

-- A read from the disk into a locked buffer without data.
module _ {c : Bcache} {b : Buf} (v : Inv c) (found : find b.dev b.sector c.bufs ≡ some b)
    (on_disk : b.dev ≡ 1) (locked : b.busy ≡ true) (empty : b.valid ≡ false) where
  clean : b.dirty ≡ false
  clean = ground (arith, Synced-find c.disk b.dev b.sector c.bufs b found v.synced)

  abbrev filled : Buf
  filled = record b { contents = c.disk b.sector; valid = true }

  transfer_read : transfer b c ≡ (filled, record c { bufs = put filled c.bufs })
  unfolding transfer
  transfer_read = rw clean

  read-Inv : Inv (record c { bufs = put filled c.bufs })
  read-Inv = record {
    unique = put-Unique filled c.bufs v.unique;
    synced = Synced-put c.disk filled c.bufs ((λ p i. ground arith), (λ p. refl)) v.synced;
  }

  shown : c.disk b.sector ≡ view c.disk c.bufs b.sector
  shown =
      sym
        (view_some c.disk c.bufs b.sector b (find_same c.bufs (sym on_disk) refl found) ∙ rw empty)

  read-view : (y : ℕ) → view c.disk (put filled c.bufs) y ≡ view c.disk c.bufs y
  read-view y = view-put c.disk filled b c.bufs y found ∙ elim (Bool-cases (is_for 1 y b)) [
    | inr other ↦ rw other
    | inl own ↦ let at : b.sector ≡ y = ground arith in rw own (shown ∙ ap (view c.disk c.bufs) at)
  ]

-- The buffer that a call returns is locked and holds the block `shown`.
pub record Holds (c' : Bcache) (y : ℕ) (b : Buf) (shown : Block) : Type 0 where
  pub there : find 1 y c'.bufs ≡ some b
  pub locked : b.busy ≡ true
  pub filled : b.valid ≡ true
  pub contents : b.contents ≡ shown

bread_cases :
    (c : Bcache) (y : ℕ) (r : Buf × Bcache)
    → bread 1 y c ≡ ok r
    → (bs : List Buf) × (x : Buf) × (bget 1 y c.bufs ≡ ok bs)
      × (find 1 y bs ≡ some x)
      × (((x.valid ≡ true) × (r ≡ (x, record c { bufs = bs })))
          ⊎ ((x.valid ≡ false) × (r ≡ transfer x (record c { bufs = bs }))))
unfolding bread
bread_cases c y r e =
    let (bs, e1, got) = bind_returns (bget 1 y c.bufs) _ e in
    let (x, e2, at) = bind_returns (deref 1 y bs) _ e1 in
    (
      bs,
      x,
      got,
      deref-some 1 y bs x at,
      (elim (Bool-cases x.valid) [
        | inl full ↦ inl (full, ground (arith, full, e2))
        | inr empty ↦
            inr (empty, (iderw_cases x (record c { bufs = bs }) r (ground (arith, empty, e2))).2)
      ]),
    )

-- `bread` returns a locked buffer with what the sector shows, in the cache or on the disk; it changes
-- neither the disk nor what any sector shows, and keeps the cache's invariant.
pub bread-view :
    (c : Bcache) (y : ℕ) (r : Buf × Bcache)
    → Inv c
    → bread 1 y c ≡ ok r
    → Holds r.1 y r.0 (view c.disk c.bufs y)
      × Inv r.1
      × (r.1.disk ≡ c.disk)
      × ((z : ℕ) → view r.1.disk r.1.bufs z ≡ view c.disk c.bufs z)
bread-view c y r v e =
    let (bs, x, got, at, ends) = bread_cases c y r e in
    let (l, found, locked) = bget-find 1 y c.bufs bs got in
    let same : l ≡ x = ground (arith, found, at) in
    let busy : x.busy ≡ true = rw (← same) locked in
    let v' : Inv (record c { bufs = bs }) = record {
      unique = bget-Unique 1 y c.bufs bs got v.unique;
      synced = bget-Synced c.disk 1 y c.bufs bs got v.synced;
    } in
    let keeps = λ (z : ℕ). view-bget c.disk 1 y c.bufs bs z got v.unique v.synced in
    let (d, s) = find_eq 1 y bs x at in
    let own : find x.dev x.sector bs ≡ some x = find_same bs d s at in
    elim ends [
      | inl (full, q) ↦ rw q (
        record {
          there = at;
          locked = busy;
          filled = full;
          contents = sym (sym (keeps y) ∙ view_some c.disk bs y x at ∙ rw full);
        },
        v',
        refl,
        keeps,
      )
      | inr (empty, q) ↦
          rw (q, transfer_read v' own d busy empty)
            (
              record {
                there =
                    find_same _ (sym d) (sym s)
                      (find-put_self (filled v' own d busy empty) x bs own);
                locked = busy;
                filled = refl;
                contents = shown v' own d busy empty ∙ ap (view c.disk bs) s ∙ keeps y;
              },
              read-Inv v' own d busy empty,
              refl,
              λ z. read-view v' own d busy empty z ∙ keeps z,
            )
    ]
