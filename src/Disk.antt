-- ===== src/Disk.antt =====
-- The buffer cache as log.c and fs.c see it (bio.c): a block is read and changed through a cached
-- copy, and `bwrite` sends it to the disk.  `view` is what `bread` returns for a sector; `disk` is
-- what a power failure leaves.  A buffer that was changed and not yet written stays in the cache
-- (it is B_BUSY, or B_DIRTY after `log_write`).  `power` counts the disk writes that still reach the
-- disk before a power failure, so a statement for every `power` is one for every crash point.
use zv.Prelude.{ℕ, ◌-◌, ◌==◌, if◌then◌else◌, update}
use zv.Block.{Block}

pub record Store : Type 0 where
  pub view : ℕ → Block
  pub disk : ℕ → Block
  pub power : ℕ

-- The contents of the buffer that `bread` returns.
unfoldable pub bread : Store → ℕ → Block
bread s sector = s.view sector

-- An assignment to `b->data` of the buffer for `sector`.
unfoldable pub modify : Store → ℕ → Block → Store
modify s sector b = record s { view = update s.view sector b }

-- `bwrite` of the buffer for `sector`, with contents `b`.
unfoldable pub bwrite : Store → ℕ → Block → Store
bwrite s sector b = record {
  view = update s.view sector b;
  disk = if s.power == 0 then s.disk else update s.disk sector b;
  power = s.power - 1;
}

-- What a machine sees that starts again from a disk, with power for `power` writes.
unfoldable pub boot : (ℕ → Block) → ℕ → Store
boot disk power = record { view = disk; disk = disk; power = power }
