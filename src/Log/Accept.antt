-- ===== src/Log/Accept.antt =====
-- Which transactions log.c accepts.
use zv.Prelude.{
  ℕ, ◌+◌, ◌-◌, ◌≤◌, ◌<◌, ◌≡◌, refl, arith, true, ◌==◌, if◌then◌else◌, update, List, [], ◌∷◌, length,
  ok, leb, ◌||◌, false, suc,
}
use zv.Block.{Block}
use zv.Disk.{Store, bwrite, modify}
use zv.Log.{Log, log_size, find_slot, log_write}
use zv.Log.Transaction.{write_block, write_blocks}

pub write_block_accepted :
    (l : Log) (s : Store) (x : ℕ) (b : Block)
    → l.busy ≡ true
    → l.n < log_size
    → l.n + 1 < l.size
    → (r : Log × Store) × (write_block l s x b ≡ ok r)
      × (r.0.busy ≡ true)
      × (r.0.n ≤ l.n + 1)
      × (r.0.size ≡ l.size)
unfolding write_block log_write
write_block_accepted l s x b busy small room =
    let fits : (leb log_size l.n || leb (l.size - 1) l.n) ≡ false = ground arith in
    let i : ℕ = find_slot l.n 0 l.sector x in
    (
      (
        record l { n = if i == l.n then suc l.n else l.n; sector = update l.sector i x },
        bwrite (modify s x b) (l.start + i + 1) ((modify s x b).view x),
      ),
      rw (fits, busy) refl,
      busy,
      ground arith,
      refl,
    )

-- Block writes inside a transaction are all accepted, if with them the log stays within LOGSIZE entries and below its size on the disk.
pub write_blocks_accepted :
    (ws : List (ℕ × Block)) (l : Log) (s : Store)
    → l.busy ≡ true
    → l.n + length ws ≤ log_size
    → l.n + length ws < l.size
    → (r : Log × Store) × (write_blocks l s ws ≡ ok r)
unfolding write_blocks
write_blocks_accepted [] l s busy small room = ((l, s), refl)
write_blocks_accepted ((x, b) ∷ ws) l s busy small room =
    let (q, done, busy', more, same) =
      write_block_accepted l s x b busy (omega arith) (omega arith) in
    let (r, rest) = write_blocks_accepted ws q.0 q.1 busy' (omega arith) (omega arith) in
    (r, rw done rest)
