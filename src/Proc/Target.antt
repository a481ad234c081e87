-- ===== src/Proc/Target.antt =====
-- `kill` of proc.c and the numbers of processes.
use zv.Prelude.{
  ℕ, zero, suc, ◌+◌, ◌≤◌, ◌<◌, ◌≡◌, ◌≢◌, sym, ap, ◌∙◌, inl, inr, arith, true, false, ◌==◌,
  if◌then◌else◌, Bool-cases, update, pos,
}
use zv.Proc.{nproc, runnable, is_unused, is_sleeping, Proc, Table, kill_loop, kill}
use zv.Proc.Spawn.{Ptable}
use zv.Proc.Pids.{Unique}

-- The process is marked, and woken if it sleeps.
abbrev pub marked : Proc → Proc
marked p = record p { killed = true; state = if is_sleeping p.state then runnable else p.state }

kill_loop_lem :
    (k i c : ℕ) (t : Table)
    → i ≤ c
    → c < i + k
    → ((j : ℕ) → (t j).pid ≡ (t c).pid → j ≡ c)
    → kill_loop k i (t c).pid t ≡ (pos 0, update t c (marked (t c)))
unfolding kill_loop
kill_loop_lem zero i c t from below alone = ground arith
kill_loop_lem (suc k) i c t from below alone = elim (Bool-cases ((t i).pid == (t c).pid)) [
  | inl found ↦
      let here : i ≡ c = alone i (ground (arith, found)) in
      rw found (ap (λ x. (pos 0, update t x (marked (t x)))) here)
  | inr other ↦
      let further : i ≢ c = λ e. ground (arith, other, ap (λ x. (t x).pid) e) in
      rw other (kill_loop_lem k (suc i) c t (omega (arith, further)) (omega arith) alone)
]

-- If the numbers of processes are unique, `kill` of the number of a process in the table returns 0, marks
-- that process and wakes it if it sleeps, and leaves every other slot as it was.
pub kill_lem :
    (s : Ptable) (c : ℕ)
    → Unique s
    → c < nproc
    → is_unused (s.proc c).state ≡ false
    → kill (s.proc c).pid s.proc ≡ (pos 0, update s.proc c (marked (s.proc c)))
unfolding kill
kill_lem s c u room lives =
    kill_loop_lem nproc 0 c s.proc (omega arith) (omega arith)
      (λ j e. u.distinct j c e (λ z. u.in_use c lives (sym e ∙ z)))
