-- ===== src/Log/Transaction.antt =====
-- A transaction (log.c): `begin_trans`, block writes through `log_write`, `commit_trans`.
use zv.Prelude.{
  ℕ, ◌+◌, ◌≤◌, ◌<◌, ◌≡◌, ◌≢◌, refl, ◌⊎◌, inr, true, false, arith, List, [], ◌∷◌, Result, ok, ◌>>=◌,
}
use zv.Block.{Block, get_word}
use zv.Disk.{Store, modify}
use zv.Log.{Log, log_size, log_write, begin_trans}
use zv.Log.Replay.{replay}
use zv.Log.Install.{logged}

-- How fs.c changes a block: `bp = bread(…)`, assignments to `bp->data`, `log_write(bp)`, `brelse(bp)`.
unfoldable pub write_block : Log → Store → ℕ → Block → Result (Log × Store)
unfolding log_write
write_block l s x b = log_write l (modify s x b) x

-- The block writes of one transaction, in order.
unfoldable pub write_blocks : Log → Store → List (ℕ × Block) → Result (Log × Store)
write_blocks l s [] = ok (l, s)
write_blocks l s ((x, b) ∷ ws) = write_block l s x b >>= λ r. write_blocks r.0 r.1 ws

-- Between transactions: the log is empty, and the cache and the disk agree on the home sectors.
pub record Quiet (l : Log) (s : Store) : Type 0 where
  pub empty : l.n ≡ 0
  pub clean : get_word (s.disk l.start) 0 ≡ 0
  pub synced : (x : ℕ) → x < l.start → s.view x ≡ s.disk x

-- Inside a transaction that began with the disk `d0`: the cache shows the home sectors as a replay
-- of the log over `d0`; the disk's home sectors and its log header are as they were; and the logged
-- blocks are on the disk, unless the power has failed.
pub record Logging (d0 : ℕ → Block) (l : Log) (s : Store) : Type 0 where
  pub active : l.busy ≡ true
  pub small : l.n ≤ log_size
  pub room : l.start < 4294967296
  pub homes : (j : ℕ) → j < l.n → l.sector j < l.start
  pub distinct : (i j : ℕ) → i < l.n → j < l.n → i ≢ j → l.sector i ≢ l.sector j
  pub view : (x : ℕ) → x < l.start → s.view x ≡ replay l.n l.sector (logged l.start s.view) d0 x
  pub disk : (x : ℕ) → x < l.start → s.disk x ≡ d0 x
  pub clean : get_word (s.disk l.start) 0 ≡ 0
  pub durable :
      (s.power ≡ 0) ⊎ ((j : ℕ) → j < l.n → s.view (l.start + j + 1) ≡ s.disk (l.start + j + 1))

pub begin_trans_cases :
    (l l' : Log) → begin_trans l ≡ ok l' → (l.busy ≡ false) × (l' ≡ record l { busy = true })
unfolding begin_trans
begin_trans_cases l l' e = ground arith

pub started-Logging :
    {l : Log} {s : Store}
    → Quiet l s
    → l.start < 4294967296
    → Logging s.disk (record l { busy = true }) s
unfolding replay
started-Logging {l} {s} q h = record {
  active = refl;
  small = omega (arith, q.empty);
  room = h;
  homes = λ j lt. absurd (omega (arith, q.empty));
  distinct = λ i j lt. absurd (omega (arith, q.empty));
  view = λ x lt. rw q.empty (q.synced x lt);
  disk = λ x lt. refl;
  clean = q.clean;
  durable = inr (λ j lt. absurd (omega (arith, q.empty)));
}
