-- ===== src/Bio.antt =====
-- bio.c over memide.c: the buffer cache and the disk below it.  `bufs` is the list of buffers from
-- `bcache.head.next` on, most recently used first.  A locked buffer keeps its device and sector, so a
-- pointer to one is modelled by these two.  The spinlock makes each function one step; sleeping on a
-- locked buffer is `waits`.
pub mod Unique
pub mod View
pub mod Synced
pub mod Calls
pub mod Writes
pub mod Start
mod Examples
use zv.Prelude.{
  ℕ, zero, suc, Bool, true, false, ◌&&◌, ◌||◌, not, ◌==◌, leb, if◌then◌else◌, Option, none, some,
  List, [], ◌∷◌, Result, ok, panic, waits, require, ◌>>=◌, ◌>>◌, update,
}
use zv.Block.{Block}

-- `struct buf`, its flags B_BUSY, B_VALID and B_DIRTY as fields.
pub record Buf : Type 0 where
  pub dev : ℕ
  pub sector : ℕ
  pub busy : Bool
  pub valid : Bool
  pub dirty : Bool
  pub contents : Block

-- The cache, and the disk of memide.c with its size in sectors.
pub record Bcache : Type 0 where
  pub bufs : List Buf
  pub disk : ℕ → Block
  pub disk_size : ℕ

abbrev pub buf_count : ℕ
buf_count = 20

-- (uint)-1, which `binit` stores as the device of an unused buffer.
abbrev pub no_dev : ℕ
no_dev = 4294967295

abbrev pub unused : Buf
unused = record {
  dev = no_dev;
  sector = 0;
  busy = false;
  valid = false;
  dirty = false;
  contents = λ _. 0;
}

-- The loop of `binit`, with `k` buffers left: each goes to the front.
unfoldable pub binit_loop : ℕ → List Buf → List Buf
binit_loop zero bs = bs
binit_loop (suc k) bs = binit_loop k (unused ∷ bs)

unfoldable pub binit : List Buf
unfolding binit_loop
binit = binit_loop buf_count []

abbrev pub is_for : ℕ → ℕ → Buf → Bool
is_for dev sector b = b.dev == dev && b.sector == sector

-- The first loop of `bget`: the cached buffer for a sector.
unfoldable pub find : ℕ → ℕ → List Buf → Option Buf
find dev sector [] = none
find dev sector (b ∷ bs) = if is_for dev sector b then some b else find dev sector bs

-- A change of the buffer for a device and sector, in its place.
unfoldable pub put : Buf → List Buf → List Buf
put b [] = []
put b (x ∷ bs) = if is_for b.dev b.sector x then b ∷ bs else x ∷ put b bs

abbrev pub recycled : ℕ → ℕ → Buf → Buf
recycled dev sector b = record b {
  dev = dev;
  sector = sector;
  busy = true;
  valid = false;
  dirty = false;
}

-- The second loop of `bget`, from the end of the list: the least recently used buffer that is
-- neither locked nor dirty is given the new device and sector.
unfoldable pub recycle : ℕ → ℕ → List Buf → Option (List Buf)
recycle dev sector [] = none
recycle dev sector (b ∷ bs) = elim (recycle dev sector bs) [
  | some bs' ↦ some (b ∷ bs')
  | none ↦ if b.busy || b.dirty then none else some (recycled dev sector b ∷ bs)
]

unfoldable pub bget : ℕ → ℕ → List Buf → Result (List Buf)
bget dev sector bs = elim (find dev sector bs) [
  | some b ↦ if b.busy then waits else ok (put (record b { busy = true }) bs)
  | none ↦ elim (recycle dev sector bs) [ some bs' ↦ ok bs' | none ↦ panic "bget: no buffers" ]
]

-- The end of `iderw` of memide.c: a dirty buffer is written, another is read.
unfoldable pub transfer : Buf → Bcache → Buf × Bcache
transfer b c =
    let w : Buf = record b { dirty = false; valid = true } in
    let r : Buf = record b { contents = c.disk b.sector; valid = true } in
    if b.dirty
    then (w, record c { bufs = put w c.bufs; disk = update c.disk b.sector b.contents })
    else (r, record c { bufs = put r c.bufs })

unfoldable pub iderw : Buf → Bcache → Result (Buf × Bcache)
unfolding transfer
iderw b c = do
  require b.busy "iderw: buf not busy"
  require (not (b.valid && not b.dirty)) "iderw: nothing to do"
  require (b.dev == 1) "iderw: request not for disk 1"
  require (not (leb c.disk_size b.sector)) "iderw: sector out of range"
  ok (transfer b c)

-- The buffer that a pointer leads to.
unfoldable pub deref : ℕ → ℕ → List Buf → Result Buf
deref dev sector bs = elim (find dev sector bs) [ some b ↦ ok b | none ↦ panic "no such buffer" ]

unfoldable pub bread : ℕ → ℕ → Bcache → Result (Buf × Bcache)
bread dev sector c = do
  bs ← bget dev sector c.bufs
  b ← deref dev sector bs
  if b.valid then ok (b, record c { bufs = bs }) else iderw b (record c { bufs = bs })

unfoldable pub bwrite : ℕ → ℕ → Bcache → Result (Buf × Bcache)
bwrite dev sector c = do
  b ← deref dev sector c.bufs
  require b.busy "bwrite"
  let b' = record b { dirty = true }
  iderw b' (record c { bufs = put b' c.bufs })

-- `brelse` unlinks the buffer and puts it at the front of the list.
unfoldable pub remove : ℕ → ℕ → List Buf → List Buf
remove dev sector [] = []
remove dev sector (b ∷ bs) = if is_for dev sector b then bs else b ∷ remove dev sector bs

unfoldable pub brelse : ℕ → ℕ → Bcache → Result Bcache
brelse dev sector c = do
  b ← deref dev sector c.bufs
  require b.busy "brelse"
  ok (record c { bufs = record b { busy = false } ∷ remove dev sector c.bufs })
