-- ===== src/Proc/Spawn.antt =====
-- proc.c: new processes and their numbers.  Whether there is a page for the stack (`kalloc`) and whether
-- the memory can be copied (`copyuvm`) are arguments; the memory, the stack and the files are left out.
-- A call is one step: what `fork` does without the lock of the table is to the slot that it has taken.
use zv.Prelude.{
  ℕ, zero, suc, ◌+◌, ◌%◌, Bool, true, false, if◌then◌else◌, update, Option, none, some, ℤ, pos,
  negsuc,
}
use zv.Proc.{nproc, Procstate, unused, embryo, runnable, running, is_unused, Proc, Table}

-- `ptable.proc` and `nextpid`.
pub record Ptable : Type 0 where
  pub proc : Table
  pub nextpid : ℕ

-- `nextpid++` on a pattern of 32 bits; C leaves the overflow of the int at 2^31 undefined.
abbrev pub pid_mod : ℕ
pid_mod = 4294967296

unfoldable pub find_unused : ℕ → ℕ → Table → Option ℕ
find_unused zero i t = none
find_unused (suc k) i t =
    let more = find_unused k (suc i) t in if is_unused (t i).state then some i else more

abbrev pub set_state : ℕ → Procstate → Table → Table
set_state i state t = update t i (record (t i) { state = state })

-- `allocproc` behind its search.
abbrev pub claim : Bool → Option ℕ → Ptable → Option ℕ × Ptable
claim stack none s = (none, s)
claim stack (some i) s =
    let t : Table = update s.proc i (record (s.proc i) { state = embryo; pid = s.nextpid }) in
    let s' : Ptable = record { proc = t; nextpid = (s.nextpid + 1) % pid_mod } in
    if stack then (some i, s') else (none, record s' { proc = set_state i unused t })

-- The slot of the new process, and the table.
unfoldable pub allocproc : Bool → Ptable → Option ℕ × Ptable
unfolding find_unused
allocproc stack s = claim stack (find_unused nproc 0 s.proc) s

-- `fork` behind `allocproc`.
abbrev pub start : ℕ → Bool → Option ℕ → Ptable → ℤ × Ptable
start p memory none s = (negsuc 0, s)
start p memory (some i) s =
    let child : Proc = record (s.proc i) { parent = some p; state = runnable } in
    if memory
    then (pos (s.proc i).pid, record s { proc = update s.proc i child })
    else (negsuc 0, record s { proc = set_state i unused s.proc })

-- `fork` of the process `p`: the number of its child.
unfoldable pub fork : ℕ → Bool → Bool → Ptable → ℤ × Ptable
unfolding allocproc
fork p stack memory s = let made = allocproc stack s in start p memory made.0 made.1

abbrev pub is_runnable : Procstate → Bool
is_runnable runnable = true
is_runnable _ = false

-- What `scheduler` does to a slot of the table, up to the switch.
unfoldable pub dispatch : ℕ → Table → Table
dispatch p t = if is_runnable (t p).state then set_state p running t else t

-- `yield` of the process `p`, up to the switch.
unfoldable pub yield : ℕ → Table → Table
yield p t = set_state p runnable t
