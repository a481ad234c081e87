-- ===== src/Spinlock/Cpus.antt =====
-- spinlock.c: CPUs that acquire and release one lock.  A step is one access to `lk->locked` or `lk->cpu`;
-- the records of the call stack in `lk->pcs` are left out.
use zv.Prelude.{ℕ, ◌≡◌, ◌≢◌, true, false, none, some, update}
use zv.Spinlock.{Lock, initlock, xchg}

-- Where a CPU is: outside; in the `holding` of `acquire`, which has found the lock locked; in the loop of
-- `acquire`; behind its exchange; between the calls; in the `holding` of `release`, which has found the
-- lock locked; behind it; and behind the assignment `lk->cpu = 0` of `release`.
pub data Point : Type 0 where
  outside : Point
  asking : Point
  spinning : Point
  taken : Point
  inside : Point
  checking : Point
  owning : Point
  leaving : Point

pub record World : Type 0 where
  pub lock : Lock
  pub at : ℕ → Point

-- The steps of the CPU `c`; `acquire` of a lock that it holds, and `release` of one that it does not
-- hold, panic and are no steps.
pub data Step : ℕ → World → World → Type 0 where
  enter :
      {c : ℕ} {w : World}
      → w.at c ≡ outside
      → w.lock.locked ≡ false
      → Step c w (record w { at = update w.at c spinning })
  ask :
      {c : ℕ} {w : World}
      → w.at c ≡ outside
      → w.lock.locked ≡ true
      → Step c w (record w { at = update w.at c asking })
  pass :
      {c : ℕ} {w : World}
      → w.at c ≡ asking
      → w.lock.cpu ≢ some c
      → Step c w (record w { at = update w.at c spinning })
  spin :
      {c : ℕ} {w : World}
      → w.at c ≡ spinning
      → (xchg true w.lock).0 ≡ true
      → Step c w (record w { lock = (xchg true w.lock).1 })
  take :
      {c : ℕ} {w : World}
      → w.at c ≡ spinning
      → (xchg true w.lock).0 ≡ false
      → Step c w (record w { lock = (xchg true w.lock).1; at = update w.at c taken })
  note_cpu :
      {c : ℕ} {w : World} {l : Lock}
      → w.at c ≡ taken
      → l ≡ record (w.lock) { cpu = some c }
      → Step c w (record w { lock = l; at = update w.at c inside })
  check :
      {c : ℕ} {w : World}
      → w.at c ≡ inside
      → w.lock.locked ≡ true
      → Step c w (record w { at = update w.at c checking })
  confirm :
      {c : ℕ} {w : World}
      → w.at c ≡ checking
      → w.lock.cpu ≡ some c
      → Step c w (record w { at = update w.at c owning })
  forget :
      {c : ℕ} {w : World} {l : Lock}
      → w.at c ≡ owning
      → l ≡ record (w.lock) { cpu = none }
      → Step c w (record w { lock = l; at = update w.at c leaving })
  leave :
      {c : ℕ} {w : World}
      → w.at c ≡ leaving
      → Step c w (record w { lock = (xchg false w.lock).1; at = update w.at c outside })

pub data Steps : World → World → Type 0 where
  stay : {w : World} → Steps w w
  then_step : {c : ℕ} {u v w : World} → Steps u v → Step c v w → Steps u w

-- No CPU is in `acquire` or behind it.
unfoldable pub start : Lock → World
unfolding initlock
start lk = record { lock = initlock lk; at = λ c. outside }
