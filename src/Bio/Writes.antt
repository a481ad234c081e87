-- ===== src/Bio/Writes.antt =====
-- `bwrite` and `brelse` (bio.c) as operations of the store of Disk.
use zv.Prelude.{
  ℕ, ◌≡◌, ◌≢◌, refl, sym, ap, ◌∙◌, ◌⊎◌, inl, inr, true, false, arith, ==_iff, Bool-cases,
  ℕ_discrete, update, none, some, List, [], ◌∷◌, Result, ok, require, ◌>>◌, bind_returns,
}
use zv.Block.{Block}
use zv.Bio.{Buf, Bcache, no_dev, is_for, find, put, transfer, deref, bwrite, remove, brelse}
use zv.Bio.Unique.{Unique, find_eq, find_same, put-Unique, find-put_self}
use zv.Bio.View.{view, view_some, view-put, Synced}
use zv.Bio.Synced.{Inv, Synced-find, Synced-put, Synced-write}
use zv.Bio.Calls.{deref-some, iderw_cases, Holds}

view-update_ne :
    (disk : ℕ → Block) (y z : ℕ) (v : Block) (bs : List Buf)
    → z ≢ y
    → view (update disk y v) bs z ≡ view disk bs z
unfolding view
view-update_ne disk y z v [] ne = ground arith
view-update_ne disk y z v (b ∷ bs) ne = ground (arith, view-update_ne disk y z v bs ne)

abbrev marked : Buf → Buf
marked b = record b { dirty = true }

abbrev written : Buf → Buf
written b = record b { dirty = false; valid = true }

abbrev after_write : Buf → Bcache → Bcache
after_write b c = record c {
  bufs = put (written b) (put (marked b) c.bufs);
  disk = update c.disk b.sector b.contents;
}

-- Two changes of one buffer in its place.
put_twice : (b : Buf) (bs : List Buf) → put (written b) (put (marked b) bs) ≡ put (written b) bs
unfolding put
put_twice b [] = refl
put_twice b (x ∷ bs) = ground (arith, put_twice b bs, ==_iff b.dev b.dev, ==_iff b.sector b.sector)

bwrite_cases :
    (c : Bcache) (y : ℕ) (b : Buf) (r : Buf × Bcache)
    → find 1 y c.bufs ≡ some b
    → bwrite 1 y c ≡ ok r
    → (b.busy ≡ true) × (r ≡ (written b, after_write b c))
unfolding bwrite deref transfer
bwrite_cases c y b r at e =
    let (x, e1, got) = bind_returns (deref 1 y c.bufs) _ e in
    let same : x ≡ b = ground (arith, deref-some 1 y c.bufs x got, at) in
    let (locked, e2) = locked_cases x _ e1 in
    let (l, d, q) = iderw_cases (marked x) (record c { bufs = put (marked x) c.bufs }) r e2 in
    (rw (← same) locked, q ∙ ap (λ (k : Buf). (written k, after_write k c)) same)
  where
    locked_cases :
        (x : Buf) (m : Result (Buf × Bcache))
        → (require x.busy "bwrite" >> m) ≡ ok r
        → (x.busy ≡ true) × (m ≡ ok r)
    locked_cases x m h = ground arith

-- `bwrite` of a locked buffer puts its contents on the disk, where every other sector is as before;
-- the sector then shows them, and the invariant is kept.
pub bwrite-view :
    (c : Bcache) (y : ℕ) (b : Buf) (r : Buf × Bcache)
    → Inv c
    → find 1 y c.bufs ≡ some b
    → bwrite 1 y c ≡ ok r
    → Holds r.1 y r.0 b.contents
      × Inv r.1
      × ((z : ℕ) → r.1.disk z ≡ update c.disk y b.contents z)
      × ((z : ℕ) → view r.1.disk r.1.bufs z ≡ update (view c.disk c.bufs) y b.contents z)
bwrite-view c y b r v at e =
    let (locked, q) = bwrite_cases c y b r at e in
    let (d, s) = find_eq 1 y c.bufs b at in
    let own : find b.dev b.sector c.bufs ≡ some b = find_same c.bufs d s at in
    let own' : find b.dev b.sector (put (marked b) c.bufs) ≡ some (marked b) =
      find-put_self (marked b) b c.bufs own in
    let disk' = update c.disk b.sector b.contents in
    rw q (
      record {
        there = find_same _ (sym d) (sym s) (find-put_self (written b) (marked b) _ own');
        locked = locked;
        filled = refl;
        contents = refl;
      },
      record {
        unique = put-Unique (written b) _ (put-Unique (marked b) c.bufs v.unique);
        synced = rw (put_twice b c.bufs) (
            Synced-put disk' (written b) c.bufs ((λ p i. ground (arith, locked)), (λ p. refl))
              (Synced-write c.disk b.sector b.contents b c.bufs (find_same c.bufs (sym d) refl own)
                locked v.unique v.synced));
      },
      (λ z. ground (arith, s)),
      λ z. view-put disk' (written b) (marked b) _ z own' ∙ elim (ℕ_discrete z y) [
        | yes here ↦ ground (arith, here, d, s, ==_iff 1 1)
        | no other ↦
            let off : is_for 1 z b ≡ false = ground (arith, other, s) in
            rw off (
              view-put disk' (marked b) b c.bufs z own
              ∙ rw off (
                  view-update_ne c.disk b.sector z b.contents c.bufs (λ h. other (h ∙ s))
                  ∙ ground (arith, other)))
      ],
    )

view-remove_other :
    (disk : ℕ → Block) (dev sector z : ℕ) (bs : List Buf)
    → (dev ≡ 1 → sector ≢ z)
    → view disk (remove dev sector bs) z ≡ view disk bs z
unfolding view remove
view-remove_other disk dev sector z [] ne = refl
view-remove_other disk dev sector z (b ∷ bs) ne =
    ground (arith, view-remove_other disk dev sector z bs ne, ne)

find-remove_other :
    (dev sector d s : ℕ) (bs : List Buf)
    → find d s bs ≡ none
    → find d s (remove dev sector bs) ≡ none
unfolding find remove
find-remove_other dev sector d s [] e = refl
find-remove_other dev sector d s (b ∷ bs) e = ground (arith, find-remove_other dev sector d s bs)

find-remove_self :
    (dev sector : ℕ) (bs : List Buf)
    → dev ≢ no_dev
    → Unique bs
    → find dev sector (remove dev sector bs) ≡ none
unfolding find remove
find-remove_self dev sector [] used u = refl
find-remove_self dev sector (b ∷ bs) used u =
    ground (arith, find-remove_self dev sector bs used u.1, u.0)

remove-Unique : (dev sector : ℕ) (bs : List Buf) → Unique bs → Unique (remove dev sector bs)
unfolding remove
remove-Unique dev sector [] u = tt
remove-Unique dev sector (b ∷ bs) u = elim (Bool-cases (is_for dev sector b)) [
  | inl hit ↦ rw hit u.1
  | inr miss ↦ rw miss (
    (elim u.0 [
      | inl free ↦ inl free
      | inr alone ↦ inr (find-remove_other dev sector b.dev b.sector bs alone)
    ]),
    remove-Unique dev sector bs u.1,
  )
]

remove-Synced :
    (disk : ℕ → Block) (dev sector : ℕ) (bs : List Buf)
    → Synced disk bs
    → Synced disk (remove dev sector bs)
unfolding remove
remove-Synced disk dev sector [] w = tt
remove-Synced disk dev sector (b ∷ bs) w = elim (Bool-cases (is_for dev sector b)) [
  | inl hit ↦ rw hit w.2
  | inr miss ↦ rw miss (w.0, w.1, remove-Synced disk dev sector bs w.2)
]

brelse_cases :
    (c c' : Bcache) (y : ℕ) (b : Buf)
    → find 1 y c.bufs ≡ some b
    → brelse 1 y c ≡ ok c'
    → c' ≡ record c { bufs = record b { busy = false } ∷ remove 1 y c.bufs }
unfolding brelse deref
brelse_cases c c' y b at e = ground (arith, at)

-- `brelse` of a buffer that was not changed since it was read or written, or that is marked dirty,
-- changes neither the disk nor what any sector shows; the buffer becomes the most recently used one,
-- it is unlocked, and the invariant is kept.
pub brelse-view :
    (c c' : Bcache) (y : ℕ) (b : Buf)
    → Inv c
    → find 1 y c.bufs ≡ some b
    → (b.dirty ≡ true) ⊎ (b.contents ≡ c.disk y)
    → brelse 1 y c ≡ ok c'
    → (find 1 y c'.bufs ≡ some (record b { busy = false }))
      × Inv c'
      × (c'.disk ≡ c.disk)
      × ((z : ℕ) → view c'.disk c'.bufs z ≡ view c.disk c.bufs z)
unfolding find view
brelse-view c c' y b v at kept e =
    let (d, s) = find_eq 1 y c.bufs b at in
    let alone : find b.dev b.sector (remove 1 y c.bufs) ≡ none =
      find_same _ d s (find-remove_self 1 y c.bufs (λ h. ground (arith, h)) v.unique) in
    let w = Synced-find c.disk 1 y c.bufs b at v.synced in
    rw (brelse_cases c c' y b at e) (
      ground (arith, d, s, ==_iff y y),
      record {
        unique = (inr alone, remove-Unique 1 y c.bufs v.unique);
        synced =
            ((λ p i n o. ground (arith, kept, s)), w.1, remove-Synced c.disk 1 y c.bufs v.synced);
      },
      refl,
      λ z. elim (ℕ_discrete z y) [
        | yes here ↦ ground (arith, here, d, s, view_some c.disk c.bufs y b at, ==_iff y y)
        | no other ↦
            ground
              (arith, other, d, s, view-remove_other c.disk 1 y z c.bufs (λ p q. other (sym q)))
      ],
    )
