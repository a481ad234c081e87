-- ===== src/Proc/Examples.antt =====
-- Runs of proc.c: `init` is in slot 0; the process in slot 1 sleeps in `wait`; its child in slot 2 runs,
-- and has a zombie child in slot 3.
use zv.Prelude.{
  ℕ, ◌≡◌, refl, arith, true, false, ◌==◌, if◌then◌else◌, Option, none, some, pos, update,
}
use zv.Proc.{
  nproc, Procstate, unused, sleeping, runnable, running, zombie, is_sleeping, is_zombie, Chan,
  nothing, process, object, same_chan, Proc, Table, is_child, exit, kill,
}
use zv.Proc.Spawn.{Ptable, find_unused, allocproc, fork}
use zv.Proc.Pids.{Unique}
use zv.Proc.Lives.{InUse, with_proc, forks, kills, none_yet, then_step, Steps-Unique}
use zv.Proc.Target.{marked, kill_lem}
use zv.Proc.Wakeups.{NoneLost}
use zv.Proc.Exit.{Sound, exit-NoneLost}

abbrev of_slot : Procstate → ℕ → Option ℕ → Chan → Proc
of_slot state pid parent chan = record {
  state = state;
  pid = pid;
  parent = parent;
  chan = chan;
  killed = false;
}

abbrev table : Table
table i =
    if i == 0
    then of_slot runnable 1 none nothing
    else if i == 1
    then of_slot sleeping 2 (some 0) (process 1)
    else if i == 2
    then of_slot running 3 (some 1) nothing
    else if i == 3
    then of_slot zombie 4 (some 2) nothing
    else of_slot unused 0 none nothing

table-NoneLost : NoneLost table
table-NoneLost i c hi hc e = ground (arith, e)

table-Sound : Sound 0 2 table
table-Sound = record { none_lost = table-NoneLost; own = λ c h. ground arith; top = refl }

exit_example : NoneLost (exit 0 2 table)
exit_example = exit-NoneLost 0 2 table (omega arith) (omega arith) table-Sound

-- The parent of the process that exits is woken.
exit_wakes : (exit 0 2 table 1).state ≡ runnable
unfolding exit zv.Proc.wakeup zv.Proc.wake_loop zv.Proc.abandon zv.Proc.abandon_loop
exit_wakes = refl

abbrev ptable : Ptable
ptable = record { proc = table; nextpid = 5 }

ptable-Unique : Unique ptable
ptable-Unique = record {
  below = λ j. ground arith;
  in_use = λ j e. ground (arith, e);
  distinct = λ i j e nz. ground (arith, e, nz);
}

-- A fork of which the memory cannot be copied, one that works, and a kill of its child.
abbrev forked : Ptable
forked = (fork 2 true true (fork 2 true false ptable).1).1

still_runs : InUse 2 (fork 2 true false ptable).1
unfolding fork allocproc find_unused
still_runs = refl

steps_example : Unique (with_proc forked (kill 6 forked.proc).1)
steps_example =
    Steps-Unique
      (then_step (forks 2 true false refl)
        (then_step (forks 2 true true still_runs) (then_step (kills 6) none_yet)))
      ptable-Unique (λ e. cc) (omega arith)

child_number : (fork 2 true true (fork 2 true false ptable).1).0 ≡ pos 6
unfolding fork allocproc find_unused
child_number = refl

kill_example : kill 2 table ≡ (pos 0, update table 1 (marked (table 1)))
kill_example = kill_lem ptable 1 ptable-Unique (omega arith) refl
