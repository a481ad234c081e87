-- ===== src/Bio/Synced.antt =====
-- The invariant of the buffer cache (bio.c) and the four operations on a buffer.
use zv.Prelude.{
  ℕ, ◌≡◌, subst, inl, inr, true, false, arith, Bool-cases, update, none, some, List, [], ◌∷◌, ok,
}
use zv.Block.{Block}
use zv.Bio.{Buf, Bcache, is_for, find, put, recycle, bget}
use zv.Bio.Unique.{Unique, recycle_cases, recycle-nil, bget_cases}
use zv.Bio.View.{Synced}

pub record Inv (c : Bcache) : Type 0 where
  pub unique : Unique c.bufs
  pub synced : Synced c.disk c.bufs

abbrev pub SyncedBuf : (ℕ → Block) → Buf → Type 0
SyncedBuf disk b =
    (b.valid ≡ true → b.busy ≡ false → b.dirty ≡ false → b.dev ≡ 1 → b.contents ≡ disk b.sector)
    × (b.dirty ≡ true → b.valid ≡ true)

pub Synced-find :
    (disk : ℕ → Block) (dev sector : ℕ) (bs : List Buf) (b : Buf)
    → find dev sector bs ≡ some b
    → Synced disk bs
    → SyncedBuf disk b
unfolding find
Synced-find disk dev sector [] b e v = cc
Synced-find disk dev sector (x ∷ bs) b e v = elim (Bool-cases (is_for dev sector x)) [
  | inl hit ↦ let q : x ≡ b = ground (arith, hit, e) in subst (SyncedBuf disk) q (v.0, v.1)
  | inr miss ↦ Synced-find disk dev sector bs b (ground (arith, miss, e)) v.2
]

pub Synced-put :
    (disk : ℕ → Block) (b : Buf) (bs : List Buf)
    → SyncedBuf disk b
    → Synced disk bs
    → Synced disk (put b bs)
unfolding put
Synced-put disk b [] w v = tt
Synced-put disk b (x ∷ bs) w v = elim (Bool-cases (is_for b.dev b.sector x)) [
  | inl hit ↦ rw hit (w.0, w.1, v.2)
  | inr miss ↦ rw miss (v.0, v.1, Synced-put disk b bs w v.2)
]

Synced-recycle :
    (disk : ℕ → Block) (dev sector : ℕ) (bs bs' : List Buf)
    → recycle dev sector bs ≡ some bs'
    → Synced disk bs
    → Synced disk bs'
Synced-recycle disk dev sector [] bs' e v = absurd (recycle-nil dev sector bs' e)
Synced-recycle disk dev sector (b ∷ bs) bs' e v = elim (recycle_cases dev sector b bs bs' e) [
  | inl (r, e', q) ↦ rw q (v.0, v.1, Synced-recycle disk dev sector bs r e' v.2)
  | inr (idle, clean, q) ↦ rw q ((λ p. cc), (λ p. cc), v.2)
]

pub bget-Synced :
    (disk : ℕ → Block) (dev sector : ℕ) (bs bs' : List Buf)
    → bget dev sector bs ≡ ok bs'
    → Synced disk bs
    → Synced disk bs'
bget-Synced disk dev sector bs bs' e v = elim (bget_cases dev sector bs bs' e) [
  | inl (b, found, idle, q) ↦
      let w = Synced-find disk dev sector bs b found v in
      rw q (Synced-put disk (record b { busy = true }) bs ((λ p l. cc), w.1) v)
  | inr (missing, got) ↦ Synced-recycle disk dev sector bs bs' got v
]

-- A write to the disk under a locked buffer.
Synced-absent :
    (disk : ℕ → Block) (y : ℕ) (v : Block) (bs : List Buf)
    → find 1 y bs ≡ none
    → Synced disk bs
    → Synced (update disk y v) bs
unfolding find
Synced-absent disk y v [] e w = tt
Synced-absent disk y v (x ∷ bs) e w =
    ((λ a b c d. ground (arith, w.0 a b c d)), w.1, Synced-absent disk y v bs (ground arith) w.2)

pub Synced-write :
    (disk : ℕ → Block) (y : ℕ) (v : Block) (b : Buf) (bs : List Buf)
    → find 1 y bs ≡ some b
    → b.busy ≡ true
    → Unique bs
    → Synced disk bs
    → Synced (update disk y v) bs
unfolding find
Synced-write disk y v b [] e l u w = tt
Synced-write disk y v b (x ∷ bs) e l u w = elim (Bool-cases (is_for 1 y x)) [
  | inl hit ↦
      let locked : x.busy ≡ true = ground (arith, hit, e, l) in
      let alone : find 1 y bs ≡ none = ground (arith, hit, u.0) in
      ((λ p i. cc), w.1, Synced-absent disk y v bs alone w.2)
  | inr miss ↦ (
    (λ a i c d. ground (arith, miss, w.0 a i c d)),
    w.1,
    Synced-write disk y v b bs (ground (arith, miss, e)) l u.1 w.2,
  )
]
