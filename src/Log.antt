-- ===== src/Log.antt =====
-- log.c: the redo log.  Only ROOTDEV is ever logged, so a sector stands for a block of it.  The
-- spinlock around the test of `busy` makes each function one step; sleeping on the log is `waits`.
pub mod Header
pub mod Replay
pub mod Install
pub mod Finish
pub mod Recovery
pub mod Transaction
pub mod Append
pub mod Commit
pub mod Atomic
pub mod Accept
mod Examples
use zv.Prelude.{
  ℕ, zero, suc, ◌+◌, ◌-◌, Bool, true, false, ◌||◌, not, ◌==◌, ltb, leb, if◌then◌else◌, update,
  Result, ok, waits, require, ◌>>◌,
}
use zv.Block.{Block, get_word, set_word}
use zv.Disk.{Store, bread, bwrite}

abbrev pub log_size : ℕ
log_size = 20

-- `struct log`, with the fields of its `struct logheader lh`: `n` and `sector`.
pub record Log : Type 0 where
  pub start : ℕ
  pub size : ℕ
  pub busy : Bool
  pub n : ℕ
  pub sector : ℕ → ℕ

-- The loop of `install_trans`, with `k` rounds left from `tail`.
unfoldable pub install_loop : ℕ → ℕ → Log → Store → Store
unfolding bread
install_loop zero tail l s = s
install_loop (suc k) tail l s =
    install_loop k (suc tail) l (bwrite s (l.sector tail) (bread s (l.start + tail + 1)))

unfoldable pub install_trans : Log → Store → Store
install_trans l s = install_loop l.n 0 l s

-- The loop of `read_head`: sectors `i` to `i + k - 1` of the header block.
unfoldable pub read_sectors : ℕ → ℕ → Block → (ℕ → ℕ) → ℕ → ℕ
read_sectors zero i b sec = sec
read_sectors (suc k) i b sec = read_sectors k (suc i) b (update sec i (get_word b (i + 1)))

unfoldable pub read_head : Log → Store → Log
unfolding bread
read_head l s =
    let b : Block = bread s l.start in
    record l { n = get_word b 0; sector = read_sectors (get_word b 0) 0 b l.sector }

-- The loop of `write_head`.
unfoldable pub write_sectors : ℕ → ℕ → (ℕ → ℕ) → Block → Block
write_sectors zero i sec b = b
write_sectors (suc k) i sec b = write_sectors k (suc i) sec (set_word b (i + 1) (sec i))

unfoldable pub write_head : Log → Store → Store
unfolding bread
write_head l s = bwrite s l.start (write_sectors l.n 0 l.sector (set_word (bread s l.start) 0 l.n))

unfoldable pub recover_from_log : Log → Store → Log × Store
recover_from_log l s =
    let l1 = read_head l s in
    let s1 = install_trans l1 s in let l2 : Log = record l1 { n = 0 } in (l2, write_head l2 s1)

-- `sb` is the super block: `size` is its word 0 and `nlog` its word 3.
unfoldable pub initlog : Log → Store → Log × Store
unfolding bread
initlog l s =
    let sb : Block = bread s 1 in
    recover_from_log (record l { start = get_word sb 0 - get_word sb 3; size = get_word sb 3 }) s

unfoldable pub begin_trans : Log → Result Log
begin_trans l = if l.busy then waits else ok (record l { busy = true })

unfoldable pub is_log_busy : Log → Bool
is_log_busy l = l.busy

unfoldable pub commit_trans : Log → Store → Log × Store
commit_trans l s =
    let l' : Log = record l { n = 0 } in
    if ltb 0 l.n
    then (record l' { busy = false }, write_head l' (install_trans l (write_head l s)))
    else (record l { busy = false }, s)

-- The loop of `log_write`: the first index from `i` on, of `k` left, that holds the sector.
unfoldable pub find_slot : ℕ → ℕ → (ℕ → ℕ) → ℕ → ℕ
find_slot zero i sec b = i
find_slot (suc k) i sec b = if sec i == b then i else find_slot k (suc i) sec b

-- `b` is the sector of the buffer, whose contents are in the cache.
unfoldable pub log_write : Log → Store → ℕ → Result (Log × Store)
unfolding bread
log_write l s b = do
  require (not (leb log_size l.n || leb (l.size - 1) l.n)) "too big a transaction"
  require l.busy "write outside of trans"
  let i = find_slot l.n 0 l.sector b
  ok (
    record l { n = if i == l.n then suc l.n else l.n; sector = update l.sector i b },
    bwrite s (l.start + i + 1) (bread s b),
  )
