-- ===== src/Spinlock.antt =====
-- spinlock.c: spin locks, and the nesting of `pushcli` and `popcli`.  A CPU is its number.
pub mod Nesting
pub mod Cpus
pub mod Exclusion
pub mod Progress
mod Examples
use zv.Prelude.{
  ℕ, zero, suc, ◌+◌, ◌-◌, Bool, true, false, ◌&&◌, ◌||◌, not, ◌==◌, ltb, if◌then◌else◌, List, [],
  ◌∷◌, replicate, Option, none, some, Result, ok, panic, waits, require, ◌>>=◌, ◌>>◌,
}

-- `struct spinlock`, less its name; `cpu` is the CPU that holds it.
pub record Lock : Type 0 where
  pub locked : Bool
  pub cpu : Option ℕ
  pub pcs : List ℕ

-- What a CPU keeps for `pushcli`, and its interrupt flag.
pub record Cpu : Type 0 where
  pub ncli : ℕ
  pub intena : Bool
  pub flag : Bool

unfoldable pub initlock : Lock → Lock
initlock lk = record lk { locked = false; cpu = none }

-- The rounds of `getcallerpcs`: the words of the memory lie at multiples of 4.
unfoldable pub callers : ℕ → (ℕ → ℕ) → ℕ → List ℕ
callers zero words ebp = []
callers (suc k) words ebp =
    let more = callers k words (words ebp) in
    if ebp == 0 || ltb ebp 2147483648 || ebp == 4294967295
    then replicate (suc k) 0
    else words (ebp + 4) ∷ more

unfoldable pub getcallerpcs : (ℕ → ℕ) → ℕ → List ℕ
unfolding callers
getcallerpcs words v = callers 10 words (v - 8)

unfoldable pub holding : ℕ → Lock → Bool
holding c lk = lk.locked && (elim lk.cpu [ some d ↦ d == c | none ↦ false ])

unfoldable pub pushcli : Cpu → Cpu
pushcli p = record p {
  ncli = p.ncli + 1;
  intena = if p.ncli == 0 then p.flag else p.intena;
  flag = false;
}

unfoldable pub popcli : Cpu → Result Cpu
popcli p = do
  require (not p.flag) "popcli - interruptible"
  require (not (p.ncli == 0)) "popcli"
  ok (record p { ncli = p.ncli - 1; flag = if p.ncli == 1 && p.intena then true else p.flag })

-- `xchg(&lk->locked, v)`: the old value.
unfoldable pub xchg : Bool → Lock → Bool × Lock
xchg v lk = (lk.locked, record lk { locked = v })

-- `acquire` of the CPU `c` where no other CPU runs: it spins for ever on a lock that is taken.
unfoldable pub acquire : (ℕ → ℕ) → ℕ → ℕ → Lock → Cpu → Result (Lock × Cpu)
unfolding pushcli holding xchg getcallerpcs
acquire words v c lk p = do
  require (not (holding c lk)) "acquire"
  let old = xchg true lk
  if old.0
      then waits
      else (let l : Lock = record (old.1) { cpu = some c; pcs = getcallerpcs words v } in
          ok (l, pushcli p))

abbrev pub clear_first : List ℕ → List ℕ
clear_first [] = []
clear_first (x ∷ xs) = 0 ∷ xs

unfoldable pub release : ℕ → Lock → Cpu → Result (Lock × Cpu)
unfolding holding xchg popcli
release c lk p = do
  require (holding c lk) "release"
  let l = record lk { pcs = clear_first lk.pcs; cpu = none }
  q ← popcli p
  ok ((xchg false l).1, q)
