-- ===== src/Proc.antt =====
-- proc.c: the process table.  A pointer to a process is its slot in `ptable.proc`; the lock of the table
-- makes each section under it one step.  The switch to another process, memory and files are left out.
pub mod Loops
pub mod Wakeups
pub mod Exit
pub mod Wait
pub mod Spawn
pub mod Pids
pub mod Births
pub mod Lives
pub mod Target
mod Examples
use zv.Prelude.{
  ℕ, zero, suc, ◌+◌, Bool, true, false, ◌&&◌, ◌||◌, not, ◌==◌, ltb, if◌then◌else◌, update, Option,
  none, some, ℤ, pos, negsuc,
}

-- NPROC.
abbrev pub nproc : ℕ
nproc = 64

pub data Procstate : Type 0 where
  unused : Procstate
  embryo : Procstate
  sleeping : Procstate
  runnable : Procstate
  running : Procstate
  zombie : Procstate

abbrev pub is_unused : Procstate → Bool
is_unused unused = true
is_unused _ = false

abbrev pub is_sleeping : Procstate → Bool
is_sleeping sleeping = true
is_sleeping _ = false

abbrev pub is_zombie : Procstate → Bool
is_zombie zombie = true
is_zombie _ = false

-- The address that a process sleeps on: none, a process, or another object.
pub data Chan : Type 0 where
  nothing : Chan
  process : ℕ → Chan
  object : ℕ → Chan

abbrev pub same_chan : Chan → Chan → Bool
same_chan nothing nothing = true
same_chan (process i) (process j) = i == j
same_chan (object a) (object b) = a == b
same_chan _ _ = false

pub record Proc : Type 0 where
  pub state : Procstate
  pub pid : ℕ
  pub parent : Option ℕ
  pub chan : Chan
  pub killed : Bool

abbrev pub Table : Type 0
Table = ℕ → Proc

abbrev pub is_child : ℕ → Proc → Bool
is_child p c = elim c.parent [ some q ↦ q == p | none ↦ false ]

-- The body of the loop of `wakeup1`.
abbrev pub woken : Chan → Proc → Proc
woken chan p =
    if is_sleeping p.state && same_chan p.chan chan then record p { state = runnable } else p

-- The loop of `wakeup1`, with `k` slots left.
unfoldable pub wake_loop : ℕ → ℕ → Chan → Table → Table
wake_loop zero i chan t = t
wake_loop (suc k) i chan t = wake_loop k (suc i) chan (update t i (woken chan (t i)))

unfoldable pub wakeup : Chan → Table → Table
unfolding wake_loop
wakeup chan t = wake_loop nproc 0 chan t

-- `p->parent = initproc` for the slot `i`.
abbrev pub given : ℕ → ℕ → Table → Table
given i init t = update t i (record (t i) { parent = some init })

-- The body of the loop of `exit` over the children of `p`.
unfoldable pub abandon : ℕ → ℕ → ℕ → Table → Table
unfolding wakeup
abandon i p init t =
    if is_child p (t i)
    then (if is_zombie (t i).state then wakeup (process init) (given i init t) else given i init t)
    else t

unfoldable pub abandon_loop : ℕ → ℕ → ℕ → ℕ → Table → Table
unfolding abandon
abandon_loop zero i p init t = t
abandon_loop (suc k) i p init t = abandon_loop k (suc i) p init (abandon i p init t)

-- `proc->parent` as an address to sleep on.
abbrev pub parent_chan : Option ℕ → Chan
parent_chan (some q) = process q
parent_chan none = nothing

-- `exit` of the process `p` from `wakeup1(proc->parent)` on, to the call of `sched`.
unfoldable pub exit : ℕ → ℕ → Table → Table
unfolding wakeup abandon_loop
exit init p t =
    let told : Table = wakeup (parent_chan (t p).parent) t in
    let left : Table = abandon_loop nproc 0 p init told in
    update left p (record (left p) { state = zombie })

-- What a round of the loop of `wait` comes to.
pub data Waited : Type 0 where
  reaped : ℕ → Waited
  childless : Waited
  asleep : Waited

-- The scan for a zombie: its slot, or whether there are children.
unfoldable pub find_zombie : ℕ → ℕ → ℕ → Bool → Table → Option ℕ × Bool
find_zombie zero i p havekids t = (none, havekids)
find_zombie (suc k) i p havekids t =
    let more = find_zombie k (suc i) p havekids t in
    let kids = find_zombie k (suc i) p true t in
    if is_child p (t i) then (if is_zombie (t i).state then (some i, true) else kids) else more

-- A slot is given back.
abbrev pub cleared : Proc → Proc
cleared p = record p { state = unused; pid = 0; parent = none; killed = false }

abbrev pub fall_asleep : ℕ → Chan → Table → Table
fall_asleep p chan t = update t p (record (t p) { chan = chan; state = sleeping })

-- One round of the loop of `wait` of the process `p`.
unfoldable pub wait : ℕ → Table → Waited × Table
unfolding find_zombie
wait p t =
    let found = find_zombie nproc 0 p false t in
    elim found.0 [
      | some c ↦ (reaped (t c).pid, update t c (cleared (t c)))
      | none ↦
          if not found.1 || (t p).killed
          then (childless, t)
          else (asleep, fall_asleep p (process p) t)
    ]

-- The loop of `kill`.
unfoldable pub kill_loop : ℕ → ℕ → ℕ → Table → ℤ × Table
kill_loop zero i pid t = (negsuc 0, t)
kill_loop (suc k) i pid t =
    let more = kill_loop k (suc i) pid t in
    let state = if is_sleeping (t i).state then runnable else (t i).state in
    if (t i).pid == pid
    then (pos 0, update t i (record (t i) { killed = true; state = state }))
    else more

unfoldable pub kill : ℕ → Table → ℤ × Table
unfolding kill_loop
kill pid t = kill_loop nproc 0 pid t
