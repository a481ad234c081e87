-- ===== src/Spinlock/Nesting.antt =====
-- spinlock.c: `pushcli` and `popcli` are matched.
use zv.Prelude.{
  ℕ, zero, suc, ◌+◌, ◌-◌, ◌≡◌, ◌≢◌, ℕ_discrete, refl, arith, true, false, ◌&&◌, ◌==◌, if◌then◌else◌,
  Result, ok, ◌>>=◌,
}
use zv.Spinlock.{Cpu, pushcli, popcli}

-- The calls of `pushcli` and `popcli` that a CPU makes.
pub data Calls : Type 0 where
  return_now : Calls
  push_then : Calls → Calls
  pop_then : Calls → Calls

unfoldable pub run : Calls → Cpu → Result Cpu
run return_now p = ok p
run (push_then cs) p = run cs (pushcli p)
run (pop_then cs) p = popcli p >>= run cs

-- The calls are matched, from `k` open calls of `pushcli` on.
pub data Matched : ℕ → Calls → Type 0 where
  over : Matched 0 return_now
  push : {k : ℕ} {cs : Calls} → Matched (suc k) cs → Matched k (push_then cs)
  pop : {k : ℕ} {cs : Calls} → Matched k cs → Matched (suc k) (pop_then cs)

-- The CPU `q` is `k` open calls deep, from the state `p`.
record Deep (p : Cpu) (k : ℕ) (q : Cpu) : Type 0 where
  depth : q.ncli ≡ p.ncli + k
  off : k ≡ 0 → q.flag ≡ p.flag
  shut : k ≢ 0 → q.flag ≡ false
  kept : p.ncli ≢ 0 → q.intena ≡ p.intena
  saved : p.ncli ≡ 0 → k ≢ 0 → q.intena ≡ p.flag

-- Interrupts are off while a call of `pushcli` is open.
abbrev pub Masked : Cpu → Type 0
Masked p = p.ncli ≢ 0 → p.flag ≡ false

push-Deep : (p q : Cpu) (k : ℕ) → Deep p k q → Deep p (suc k) (pushcli q)
unfolding pushcli
push-Deep p q k d = record {
  depth = omega (arith, d.depth);
  off = λ h. ground arith;
  shut = λ h. refl;
  kept = λ h. ground (arith, h, d.kept h, d.depth);
  saved = λ h h'. elim (ℕ_discrete k 0) [
    | yes z ↦ ground (arith, h, z, d.off z, d.depth)
    | no nz ↦ ground (arith, h, nz, d.saved h nz, d.depth)
  ];
}

pop-Deep :
    (p q : Cpu) (k : ℕ) → Masked p → Deep p (suc k) q → (r : Cpu) × (popcli q ≡ ok r) × Deep p k r
unfolding popcli
pop-Deep p q k fine d =
    let off : q.flag ≡ false = d.shut (λ z. omega arith) in
    let open_call : (q.ncli == 0) ≡ false = ground (arith, d.depth) in
    let r : Cpu = record q {
      ncli = q.ncli - 1;
      flag = if q.ncli == 1 && q.intena then true else q.flag;
    } in
    (
      r,
      rw (off, open_call) refl,
      record {
        depth = omega (arith, d.depth);
        off = λ z. elim (ℕ_discrete p.ncli 0) [
          | yes first ↦ ground (arith, z, first, off, d.depth, d.saved first (λ z'. omega arith))
          | no inner ↦ ground (arith, z, inner, off, d.depth, fine inner)
        ];
        shut = λ nz. ground (arith, nz, off, d.depth);
        kept = λ nz. d.kept nz;
        saved = λ z nz. d.saved z (λ z'. omega arith);
      },
    )

run-Deep :
    (p q : Cpu) (k : ℕ) (cs : Calls)
    → Masked p
    → Matched k cs
    → Deep p k q
    → (r : Cpu) × (run cs q ≡ ok r) × Deep p 0 r
unfolding run
run-Deep p q zero return_now fine over d = (q, refl, d)
run-Deep p q (suc k) return_now fine m d = elim m [ ]
run-Deep p q zero (pop_then cs) fine m d = elim m [ ]
run-Deep p q k (push_then cs) fine (push m) d =
    run-Deep p (pushcli q) (suc k) cs fine m (push-Deep p q k d)
run-Deep p q (suc k) (pop_then cs) fine (pop m) d =
    let (r, popped, d') = pop-Deep p q k fine d in
    let (t, done, d'') = run-Deep p r k cs fine m d' in (t, rw (popped, ◌>>=◌) done, d'')

-- After matched calls of `pushcli` and `popcli`, on a CPU whose interrupts are off if a call was open before, none panics, and the interrupt flag and the number of open calls are what they were.
pub run-restores :
    (p : Cpu) (cs : Calls)
    → Masked p
    → Matched 0 cs
    → (r : Cpu) × (run cs p ≡ ok r) × (r.flag ≡ p.flag) × (r.ncli ≡ p.ncli)
run-restores p cs fine m =
    let start : Deep p 0 p = record {
      depth = omega arith;
      off = λ z. refl;
      shut = λ nz. absurd (nz refl);
      kept = λ nz. refl;
      saved = λ z nz. absurd (nz refl);
    } in
    let (r, done, d) = run-Deep p p 0 cs fine m start in
    (r, done, d.off refl, omega (arith, d.depth))
