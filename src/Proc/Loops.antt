-- ===== src/Proc/Loops.antt =====
-- The loops of proc.c over the process table, slot by slot.
use zv.Prelude.{ℕ, zero, suc, ◌+◌, ◌<◌, ◌≡◌, ◌∙◌, arith, ◌&&◌, ltb, leb, if◌then◌else◌, update}
use zv.Proc.{nproc, Chan, Table, woken, wake_loop, wakeup}

-- A loop of `wakeup1` wakes each slot that it reaches.
wake_loop_lem :
    (k i : ℕ) (chan : Chan) (t : Table) (j : ℕ)
    → wake_loop k i chan t j ≡ (if leb i j && ltb j (i + k) then woken chan (t j) else t j)
unfolding wake_loop
wake_loop_lem zero i chan t j = ground arith
wake_loop_lem (suc k) i chan t j =
    wake_loop_lem k (suc i) chan (update t i (woken chan (t i))) j ∙ ground arith

pub wakeup_lem : (chan : Chan) (t : Table) (j : ℕ) → j < nproc → wakeup chan t j ≡ woken chan (t j)
unfolding wakeup
wakeup_lem chan t j lt = wake_loop_lem nproc 0 chan t j ∙ ground arith
