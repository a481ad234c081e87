-- ===== src/Log/Recovery.antt =====
-- Recovery from any crash (log.c): a disk whose header names the entries of a transaction is brought
-- to the transaction's result, however often recovery itself is cut short.
use zv.Prelude.{ℕ, ◌+◌, ◌<◌, ◌≡◌, refl, sym, ◌∙◌, arith, List, [], ◌∷◌}
use zv.Block.{Block, get_word}
use zv.Disk.{bread, boot}
use zv.Log.{Log, log_size, read_head, read_sectors, recover_from_log}
use zv.Log.Header.{read_sectors_lem}
use zv.Log.Replay.{replay_cong}
use zv.Log.Install.{logged}
use zv.Log.Finish.{Recoverable, Committed, finish, finish-Recoverable, finish_done}

boot-Committed :
    {target d : ℕ → Block} (l : Log) (power : ℕ)
    → Recoverable target l.start d
    → Committed target (read_head l (boot d power)) (boot d power)
unfolding read_head boot bread
boot-Committed {target} {d} l power r =
    let sec : (j : ℕ)
        → j < get_word (d l.start) 0
        → read_sectors (get_word (d l.start) 0) 0 (d l.start) l.sector j
          ≡ get_word (d l.start) (j + 1) =
      λ j lt.
        read_sectors_lem (get_word (d l.start) 0) 0 j (d l.start) l.sector (omega arith)
          (omega arith) in
    record {
      small = r.small;
      homes = λ j lt. rw (sec j lt) (r.homes j lt);
      head_n = refl;
      head_sector = λ j lt. sym (sec j lt);
      reads = λ j lt. refl;
      replays = λ x lt.
          replay_cong (get_word (d l.start) 0) _ (λ j. get_word (d l.start) (j + 1)) _
            (logged l.start d) _ d x sec (λ j b. refl) refl
          ∙ r.replays x lt;
    }

-- What a recovery with power for `power` writes makes of the disk `d`.
unfoldable pub recovered : Log → (ℕ → Block) → ℕ → ℕ → Block
unfolding recover_from_log
recovered l d power = (recover_from_log l (boot d power)).1.disk

-- A recovery that is cut short after any number of disk writes leaves a disk from which the same
-- result can be recovered.
pub recovered-Recoverable :
    (target d : ℕ → Block) (l : Log) (power : ℕ)
    → Recoverable target l.start d
    → Recoverable target l.start (recovered l d power)
unfolding recovered read_head finish
recovered-Recoverable target d l power r = finish-Recoverable (boot-Committed l power r)

-- A recovery with power for one more write than the log has entries at most brings every home sector
-- to its result, and leaves an empty log.
pub recovered_done :
    (target d : ℕ → Block) (l : Log) (power : ℕ)
    → Recoverable target l.start d
    → log_size < power
    → ((x : ℕ) → x < l.start → recovered l d power x ≡ target x)
      × (get_word (recovered l d power l.start) 0 ≡ 0)
unfolding recovered read_head finish boot bread
recovered_done target d l power r h =
    finish_done (boot-Committed l power r) (omega (arith, r.small))

-- Recoveries that are cut short, one after another, with power for the given numbers of writes.
unfoldable pub recoveries : Log → (ℕ → Block) → List ℕ → ℕ → Block
recoveries l d [] = d
recoveries l d (p ∷ ps) = recoveries l (recovered l d p) ps

pub recoveries-Recoverable :
    (target d : ℕ → Block) (l : Log) (ps : List ℕ)
    → Recoverable target l.start d
    → Recoverable target l.start (recoveries l d ps)
unfolding recoveries
recoveries-Recoverable target d l [] r = r
recoveries-Recoverable target d l (p ∷ ps) r =
    recoveries-Recoverable target (recovered l d p) l ps (recovered-Recoverable target d l p r)
