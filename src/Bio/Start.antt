-- ===== src/Bio/Start.antt =====
-- The buffer cache that `binit` (bio.c) makes.
use zv.Prelude.{ℕ, zero, suc, ◌≡◌, refl, inl, List, [], ◌∷◌}
use zv.Block.{Block}
use zv.Bio.{Buf, unused, binit_loop, binit, buf_count}
use zv.Bio.Unique.{Unique}
use zv.Bio.View.{view, Synced}
use zv.Bio.Synced.{Inv}

binit_loop-Unique : (k : ℕ) (bs : List Buf) → Unique bs → Unique (binit_loop k bs)
unfolding binit_loop
binit_loop-Unique zero bs u = u
binit_loop-Unique (suc k) bs u = binit_loop-Unique k (unused ∷ bs) (inl refl, u)

binit_loop-Synced :
    (disk : ℕ → Block) (k : ℕ) (bs : List Buf) → Synced disk bs → Synced disk (binit_loop k bs)
unfolding binit_loop
binit_loop-Synced disk zero bs v = v
binit_loop-Synced disk (suc k) bs v =
    binit_loop-Synced disk k (unused ∷ bs) ((λ e f g h. cc), (λ e. cc), v)

binit_loop-view :
    (disk : ℕ → Block) (k : ℕ) (bs : List Buf) (y : ℕ)
    → view disk (binit_loop k bs) y ≡ view disk bs y
unfolding binit_loop view
binit_loop-view disk zero bs y = refl
binit_loop-view disk (suc k) bs y = binit_loop-view disk k (unused ∷ bs) y

-- The cache that `binit` makes meets the invariant over any disk, and every sector shows what is on the disk.
pub binit-Inv :
    (disk : ℕ → Block) (size : ℕ)
    → Inv (record { bufs = binit; disk = disk; disk_size = size })
      × ((y : ℕ) → view disk binit y ≡ disk y)
unfolding binit view
binit-Inv disk size = (
  record {
    unique = binit_loop-Unique buf_count [] tt;
    synced = binit_loop-Synced disk buf_count [] tt;
  },
  λ y. binit_loop-view disk buf_count [] y,
)
