-- ===== src/Proc/Lives.antt =====
-- proc.c: all orders of the calls on the process table, and the numbers of the processes in them.
use zv.Prelude.{ℕ, suc, ◌+◌, ◌<◌, ◌≡◌, ◌≢◌, refl, inl, inr, arith, Bool, true, false, Bool-cases}
use zv.Proc.{
  Procstate, unused, embryo, sleeping, runnable, running, zombie, is_unused, Chan, Table, wakeup,
  exit, wait, fall_asleep, kill,
}
use zv.Proc.Spawn.{Ptable, pid_mod, is_runnable, fork, dispatch, yield}
use zv.Proc.Pids.{
  Unique, SameLife, Unique-SameLife, set_state-SameLife, wakeup-SameLife, exit-SameLife,
  kill-SameLife,
}
use zv.Proc.Births.{Kept, fork-Kept, wait-Unique, sleep-Unique}

dispatch-SameLife : (p : ℕ) (t : Table) → SameLife t (dispatch p t)
unfolding dispatch
dispatch-SameLife p t = elim (Bool-cases (is_runnable (t p).state)) [
  | inl ready ↦ rw ready (set_state-SameLife p running t (ready_used (t p).state ready) refl)
  | inr other ↦ rw other (record { same = λ j. (refl, refl) })
]
  where
    ready_used : (st : Procstate) → is_runnable st ≡ true → is_unused st ≡ false
    ready_used unused e = cc
    ready_used embryo e = refl
    ready_used sleeping e = refl
    ready_used runnable e = refl
    ready_used running e = refl
    ready_used zombie e = refl

yield-SameLife : (p : ℕ) (t : Table) → is_unused (t p).state ≡ false → SameLife t (yield p t)
unfolding yield
yield-SameLife p t lives = set_state-SameLife p runnable t lives refl

-- The process `p` is in the table.
abbrev pub InUse : ℕ → Ptable → Type 0
InUse p s = is_unused (s.proc p).state ≡ false

abbrev pub with_proc : Ptable → Table → Ptable
with_proc s t = record s { proc = t }

-- A call of any process, up to a switch.
pub data Step : Ptable → Ptable → Type 0 where
  forks : {s : Ptable} (p : ℕ) (stack memory : Bool) → InUse p s → Step s (fork p stack memory s).1
  exits : {s : Ptable} (init p : ℕ) → InUse p s → Step s (with_proc s (exit init p s.proc))
  waits_once : {s : Ptable} (p : ℕ) → InUse p s → Step s (with_proc s (wait p s.proc).1)
  kills : {s : Ptable} (pid : ℕ) → Step s (with_proc s (kill pid s.proc).1)
  wakes : {s : Ptable} (chan : Chan) → Step s (with_proc s (wakeup chan s.proc))
  sleeps :
      {s : Ptable} (p : ℕ) (chan : Chan)
      → InUse p s
      → Step s (with_proc s (fall_asleep p chan s.proc))
  dispatches : {s : Ptable} (p : ℕ) → Step s (with_proc s (dispatch p s.proc))
  yields : {s : Ptable} (p : ℕ) → InUse p s → Step s (with_proc s (yield p s.proc))

pub data Steps : ℕ → Ptable → Ptable → Type 0 where
  none_yet : {s : Ptable} → Steps 0 s s
  then_step : {n : ℕ} {s t u : Ptable} → Step s t → Steps n t u → Steps (suc n) s u

Kept-proc : (s : Ptable) (t : Table) → Unique (with_proc s t) → Kept s (with_proc s t)
Kept-proc s t u = record { unique = u; lower = omega arith; upper = omega arith }

Kept-same : (s : Ptable) (t : Table) → Unique s → SameLife s.proc t → Kept s (with_proc s t)
Kept-same s t u same = Kept-proc s t (Unique-SameLife s t u same)

Step-Kept :
    {s t : Ptable} → Step s t → Unique s → s.nextpid ≢ 0 → s.nextpid + 1 < pid_mod → Kept s t
Step-Kept (forks {s} p stack memory lives) u nonzero small =
    fork-Kept p stack memory s u nonzero small
Step-Kept (exits {s} init p lives) u nonzero small =
    Kept-same s (exit init p s.proc) u (exit-SameLife init p s.proc lives)
Step-Kept (waits_once {s} p lives) u nonzero small =
    Kept-proc s (wait p s.proc).1 (wait-Unique p s u lives)
Step-Kept (kills {s} pid) u nonzero small =
    Kept-same s (kill pid s.proc).1 u (kill-SameLife pid s.proc)
Step-Kept (wakes {s} chan) u nonzero small =
    Kept-same s (wakeup chan s.proc) u (wakeup-SameLife chan s.proc)
Step-Kept (sleeps {s} p chan lives) u nonzero small =
    Kept-proc s (fall_asleep p chan s.proc) (sleep-Unique p chan s u lives)
Step-Kept (dispatches {s} p) u nonzero small =
    Kept-same s (dispatch p s.proc) u (dispatch-SameLife p s.proc)
Step-Kept (yields {s} p lives) u nonzero small =
    Kept-same s (yield p s.proc) u (yield-SameLife p s.proc lives)

-- In every order of `fork`, `exit`, rounds of `wait`, `kill`, `wakeup`, `sleep`, `yield` and switches by
-- the scheduler, failed calls of `fork` included, no two slots of the table have the same process number
-- other than 0, each process has a number other than 0, and all numbers are below `nextpid`, if that was
-- so at first and there are fewer steps than numbers left until `nextpid` wraps around.
pub Steps-Unique :
    {n : ℕ} {s t : Ptable}
    → Steps n s t
    → Unique s
    → s.nextpid ≢ 0
    → s.nextpid + n < pid_mod
    → Unique t
Steps-Unique none_yet u nonzero small = u
Steps-Unique (then_step first rest) u nonzero small =
    let kept = Step-Kept first u nonzero (omega arith) in
    Steps-Unique rest kept.unique (omega (arith, kept.lower)) (omega (arith, kept.upper))
