-- ===== src/Log/Examples.antt =====
-- Runs of log.c on a log of 20 blocks from block 100 on.
use zv.Prelude.{
  ℕ, ◌+◌, ◌<◌, ◌≡◌, refl, ◌⊎◌, true, false, arith, ◌==◌, if◌then◌else◌, List, [], ◌∷◌, ok, update,
}
use zv.Block.{Block, get_word}
use zv.Disk.{Store, bread, bwrite, modify}
use zv.Log.{Log, begin_trans, commit_trans, log_write, find_slot}
use zv.Log.Finish.{Recoverable}
use zv.Log.Recovery.{recovered, recoveries, recovered-Recoverable}
use zv.Log.Replay.{replay}
use zv.Log.Transaction.{write_block, write_blocks, Quiet, Logging, started-Logging}
use zv.Log.Atomic.{overwritten, write_blocks-Logging, transaction_atomic}
use zv.Log.Commit.{commit_trans_atomic}
use zv.Log.Accept.{write_blocks_accepted}

abbrev zeros : ℕ → Block
zeros x i = 0

abbrev idle_log : Log
idle_log = record { start = 100; size = 20; busy = false; n = 0; sector = λ _. 0 }

abbrev busy_log : Log
busy_log = record idle_log { busy = true }

-- Power for nine disk writes.
abbrev store : Store
store = record { view = zeros; disk = zeros; power = 9 }

abbrev two_writes : List (ℕ × Block)
two_writes = (5, λ _. 7) ∷ (6, λ _. 8) ∷ []

abbrev written : Log × Store
unfolding write_blocks write_block log_write find_slot modify bread bwrite
written = elim (write_blocks busy_log store two_writes) [ ok r ↦ r | _ ↦ (busy_log, store) ]

two_written : write_blocks busy_log store two_writes ≡ ok written
unfolding write_blocks write_block log_write find_slot modify bread bwrite written
two_written = refl

quiet : Quiet idle_log store
unfolding get_word
quiet = record { empty = refl; clean = refl; synced = λ x lt. refl }

begun : begin_trans idle_log ≡ ok busy_log
unfolding begin_trans
begun = refl

logging : Logging zeros busy_log store
logging = started-Logging quiet (omega arith)

transaction_atomic_example :
    (((x : ℕ)
        → x < 100
        → recovered idle_log
            (recoveries idle_log (commit_trans written.0 written.1).1.disk (1 ∷ []))
            21
            x
          ≡ zeros x)
      ⊎ ((x : ℕ)
          → x < 100
          → recovered idle_log
              (recoveries idle_log (commit_trans written.0 written.1).1.disk (1 ∷ []))
              21
              x
            ≡ overwritten two_writes zeros x))
    × (get_word
          (recovered idle_log
            (recoveries idle_log (commit_trans written.0 written.1).1.disk (1 ∷ []))
            21
            100)
          0
        ≡ 0)
transaction_atomic_example =
    transaction_atomic idle_log busy_log store two_writes written (1 ∷ []) 21 quiet (omega arith)
      (omega arith, (omega arith, tt)) begun two_written (omega arith)

written-Logging : Logging zeros written.0 written.1
written-Logging =
    (write_blocks-Logging zeros two_writes busy_log store written logging
      (omega arith, (omega arith, tt)) two_written).0

commit_trans_atomic_example :
    Recoverable zeros written.0.start (commit_trans written.0 written.1).1.disk
    ⊎ Recoverable written.1.view written.0.start (commit_trans written.0 written.1).1.disk
commit_trans_atomic_example = commit_trans_atomic zeros written.0 written.1 written-Logging

write_blocks_accepted_example : (r : Log × Store) × (write_blocks busy_log store two_writes ≡ ok r)
write_blocks_accepted_example =
    write_blocks_accepted two_writes busy_log store refl (omega arith) (omega arith)

-- A disk whose log holds one entry, a block of sevens for sector 5.
abbrev committed : ℕ → Block
committed =
    update (update zeros 100 (λ i. if i == 0 then 1 else if i == 4 then 5 else 0)) 101 (λ _. 7)

abbrev installed : ℕ → Block
installed = update committed 5 (λ _. 7)

committed_n : get_word (committed 100) 0 ≡ 1
unfolding get_word
committed_n = refl

committed_sector : get_word (committed 100) 1 ≡ 5
unfolding get_word
committed_sector = refl

committed-Recoverable : Recoverable installed 100 committed
unfolding replay
committed-Recoverable = record {
  small = omega (arith, committed_n);
  homes = λ j lt. home j (rw committed_n at lt);
  replays = λ x lt. rw (committed_n, committed_sector) (ground arith);
}
  where
    home : (j : ℕ) → j < 1 → get_word (committed 100) (j + 1) < 100
    home j lt = let e : j ≡ 0 = omega arith in rw e (omega (arith, committed_sector))

recovered-Recoverable_example : Recoverable installed 100 (recovered idle_log committed 1)
recovered-Recoverable_example =
    recovered-Recoverable installed committed idle_log 1 committed-Recoverable
