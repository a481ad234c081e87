-- ===== src/Bio/Examples.antt =====
-- Runs of bio.c on a disk of zeros with 1000 sectors.
use zv.Prelude.{ℕ, ◌≡◌, refl, true, update, List, some, ok}
use zv.Block.{Block}
use zv.Bio.{
  Buf, Bcache, unused, binit_loop, binit, find, put, recycle, bget, deref, transfer, iderw, bread,
  bwrite, remove, brelse,
}
use zv.Bio.Unique.{bget-find}
use zv.Bio.View.{view}
use zv.Bio.Synced.{Inv}
use zv.Bio.Calls.{Holds, bread-view}
use zv.Bio.Writes.{bwrite-view}
use zv.Bio.Start.{binit-Inv}

abbrev zeros : ℕ → Block
zeros x i = 0

abbrev start : Bcache
start = record { bufs = binit; disk = zeros; disk_size = 1000 }

abbrev got : Buf × Bcache
unfolding binit binit_loop find recycle put bget deref transfer iderw bread
got = elim (bread 1 5 start) [ ok r ↦ r | _ ↦ (unused, start) ]

got_ok : bread 1 5 start ≡ ok got
unfolding got binit binit_loop find recycle put bget deref transfer iderw bread
got_ok = refl

bread-view_example :
    Holds got.1 5 got.0 (view zeros binit 5)
    × Inv got.1
    × (got.1.disk ≡ zeros)
    × ((z : ℕ) → view got.1.disk got.1.bufs z ≡ view zeros binit z)
bread-view_example = bread-view start 5 got (binit-Inv zeros 1000).0 got_ok

got-Inv : Inv got.1
got-Inv = (bread-view start 5 got (binit-Inv zeros 1000).0 got_ok).1

got_found : find 1 5 got.1.bufs ≡ some got.0
unfolding got binit binit_loop find recycle put bget deref transfer iderw bread
got_found = refl

abbrev wrote : Buf × Bcache
unfolding got binit binit_loop find recycle put bget deref transfer iderw bread bwrite
wrote = elim (bwrite 1 5 got.1) [ ok r ↦ r | _ ↦ (unused, start) ]

wrote_ok : bwrite 1 5 got.1 ≡ ok wrote
unfolding wrote got binit binit_loop find recycle put bget deref transfer iderw bread bwrite
wrote_ok = refl

bwrite-view_example :
    Holds wrote.1 5 wrote.0 got.0.contents
    × Inv wrote.1
    × ((z : ℕ) → wrote.1.disk z ≡ update got.1.disk 5 got.0.contents z)
    × ((z : ℕ)
        → view wrote.1.disk wrote.1.bufs z ≡ update (view got.1.disk got.1.bufs) 5 got.0.contents z)
bwrite-view_example = bwrite-view got.1 5 got.0 wrote got-Inv got_found wrote_ok

abbrev released : Bcache
unfolding got binit binit_loop find recycle put bget deref transfer iderw bread remove brelse
released = elim (brelse 1 5 got.1) [ ok r ↦ r | _ ↦ start ]

released_ok : brelse 1 5 got.1 ≡ ok released
unfolding released got binit binit_loop find recycle put bget deref transfer iderw bread remove
    brelse
released_ok = refl

as_on_disk : got.0.contents ≡ got.1.disk 5
unfolding got binit binit_loop find recycle put bget deref transfer iderw bread
as_on_disk = refl

abbrev taken : List Buf
unfolding binit binit_loop find recycle put bget
taken = elim (bget 1 5 binit) [ ok bs ↦ bs | _ ↦ binit ]

taken_ok : bget 1 5 binit ≡ ok taken
unfolding taken binit binit_loop find recycle put bget
taken_ok = refl

bget-find_example : (b : Buf) × (find 1 5 taken ≡ some b) × (b.busy ≡ true)
bget-find_example = bget-find 1 5 binit taken taken_ok
