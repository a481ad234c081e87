-- ===== src/Fs/Writes.antt =====
-- Block writes inside a transaction, as fs.c makes them.
use zv.Prelude.{ℕ, ◌+◌, ◌<◌, ◌≤◌, ◌≡◌, refl, arith, ◌==◌, if◌then◌else◌, Result, ok, panic, waits}
use zv.Block.{Block}
use zv.Disk.{Store}
use zv.Log.{Log}
use zv.Log.Transaction
use zv.Log.Transaction.{Logging}
use zv.Log.Append.{write_block-Logging}
use zv.Log.Accept
use zv.Log.{log_size}
use zv.Fs.{Fs, write_block}

-- The file system is in a transaction that began with the disk `d0`.
abbrev pub InTrans : (ℕ → Block) → Fs → Type 0
InTrans d0 s = Logging d0 s.log s.store

-- What `bread` returns.
abbrev pub view : Fs → ℕ → Block
view s = s.store.view

-- From `s` to `t` the blocks below the log changed as `f` says, inside the same transaction, and the
-- inode cache did not change.
pub record Wrote (d0 : ℕ → Block) (s t : Fs) (f : ℕ → Block) : Type 0 where
  pub trans : InTrans d0 t
  pub start : t.log.start ≡ s.log.start
  pub blocks : (x : ℕ) → x < s.log.start → view t x ≡ f x
  pub icache : t.icache ≡ s.icache

write_block_ok :
    (b : ℕ) (c : Block) (s t : Fs)
    → write_block b c s ≡ ok (tt, t)
    → (r : Log × Store) × (Transaction.write_block s.log s.store b c ≡ ok r)
      × (t ≡ record s { log = r.0; store = r.1 })
unfolding write_block
write_block_ok b c s t e = go (Transaction.write_block s.log s.store b c) refl
  where
    go :
        (m : Result (Log × Store))
        → Transaction.write_block s.log s.store b c ≡ m
        → (r : Log × Store) × (Transaction.write_block s.log s.store b c ≡ ok r)
          × (t ≡ record s { log = r.0; store = r.1 })
    go (ok r) q = (r, q, ground (arith, q, e))
    go (panic x) q = ground (arith, q, e)
    go waits q = ground (arith, q, e)

pub write_block-Wrote :
    (d0 : ℕ → Block) (b : ℕ) (c : Block) (s t : Fs)
    → InTrans d0 s
    → b < s.log.start
    → write_block b c s ≡ ok (tt, t)
    → Wrote d0 s t (λ x. if x == b then c else view s x)
write_block-Wrote d0 b c s t g lt e =
    let (r, done, q) = write_block_ok b c s t e in
    let (g', same, shown) = write_block-Logging d0 s.log s.store b c r g lt done in
    rw q (record { trans = g'; start = same; blocks = shown; icache = refl })

-- In a transaction with room in the log a write is accepted.
pub write_block_accepted :
    (d0 : ℕ → Block) (b : ℕ) (c : Block) (s : Fs)
    → InTrans d0 s
    → b < s.log.start
    → s.log.n < log_size
    → s.log.n + 1 < s.log.size
    → (t : Fs) × (write_block b c s ≡ ok (tt, t))
      × Wrote d0 s t (λ x. if x == b then c else view s x)
      × (t.log.n ≤ s.log.n + 1)
      × (t.log.size ≡ s.log.size)
unfolding write_block
write_block_accepted d0 b c s g lt small room =
    let (r, done, busy, more, same) =
      Accept.write_block_accepted s.log s.store b c g.active small room in
    let t : Fs = record s { log = r.0; store = r.1 } in
    let e : write_block b c s ≡ ok (tt, t) = rw (write_block, done) refl in
    (t, e, write_block-Wrote d0 b c s t g lt e, more, same)
