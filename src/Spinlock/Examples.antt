-- ===== src/Spinlock/Examples.antt =====
-- Two CPUs and a lock (spinlock.c).
use zv.Prelude.{ℕ, ◌≡◌, ◌≢◌, refl, arith, true, false, none, some, [], ok, update}
use zv.Spinlock.{Lock, Cpu, initlock, holding, xchg}
use zv.Spinlock.Nesting.{Calls, return_now, push_then, pop_then, over, push, pop, run, run-restores}
use zv.Spinlock.Cpus.{
  outside, asking, spinning, taken, inside, checking, World, enter, ask, pass, take, note_cpu,
  Steps, stay, then_step, start,
}
use zv.Spinlock.Exclusion.{exclusion}
use zv.Spinlock.Progress.{spinner_enters}

abbrev cpu : Cpu
cpu = record { ncli = 0; intena = false; flag = true }

abbrev twice : Calls
twice = push_then (push_then (pop_then (pop_then return_now)))

run_example : (r : Cpu) × (run twice cpu ≡ ok r) × (r.flag ≡ true) × (r.ncli ≡ 0)
run_example = run-restores cpu twice (λ nz. absurd (nz refl)) (push (push (pop (pop over))))

abbrev fresh_lock : Lock
fresh_lock = record { locked = true; cpu = none; pcs = [] }

-- CPU 1 is in the loop of `acquire`, CPU 0 between the calls.
abbrev entered : World
unfolding start
entered = record (start fresh_lock) { at = update (start fresh_lock).at 0 spinning }

abbrev w1 : World
unfolding xchg entered
w1 = record entered { lock = (xchg true entered.lock).1; at = update entered.at 0 taken }

abbrev w2 : World
unfolding w1
w2 = record w1 { lock = record (w1.lock) { cpu = some 0 }; at = update w1.at 0 inside }

abbrev asks : World
unfolding w2
asks = record w2 { at = update w2.at 1 asking }

abbrev w3 : World
unfolding asks
w3 = record asks { at = update asks.at 1 spinning }

other_cpu : asks.lock.cpu ≢ some 1
unfolding asks w2
other_cpu e = ground (arith, e)

reached : Steps (start fresh_lock) w3
unfolding w3 asks w2 w1 entered start initlock xchg holding
reached =
    then_step
      (then_step
        (then_step (then_step (then_step stay (enter refl refl)) (take refl refl))
          (note_cpu refl refl))
        (ask refl refl))
      (pass refl other_cpu)

exclusion_example :
    ((c d : ℕ) → w3.at c ≡ inside → w3.at d ≡ inside → c ≡ d)
    × ((c : ℕ) → w3.at c ≡ inside → holding c w3.lock ≡ true)
    × ((c : ℕ) → w3.at c ≡ outside → holding c w3.lock ≡ false)
    × ((c : ℕ) → w3.at c ≡ checking → w3.lock.cpu ≡ some c)
    × ((c : ℕ) → w3.at c ≡ asking → w3.lock.cpu ≢ some c)
exclusion_example = exclusion fresh_lock w3 reached

spins : w3.at 1 ≡ spinning
unfolding w3
spins = refl

spinner_enters_example : (v : World) × Steps w3 v × (v.at 1 ≡ inside)
spinner_enters_example = spinner_enters fresh_lock 1 w3 reached spins
