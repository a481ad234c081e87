-- ===== src/Proc/Wait.antt =====
-- `wait` and `kill` (proc.c) lose no wake-up.
use zv.Prelude.{
  ℕ, zero, suc, ◌<◌, ◌≡◌, refl, sym, ap, ◌∙◌, inl, inr, arith, true, false, ◌==◌, if◌then◌else◌,
  update, Bool-cases, ℕ_discrete,
}
use zv.Proc.{
  nproc, runnable, is_sleeping, process, Proc, Table, is_child, Waited, reaped, childless, asleep,
  cleared, fall_asleep, kill_loop, kill,
}
use zv.Proc.Wakeups.{in_wait, dead_child, NoneLost}

-- A change of one slot that makes no zombie of it, and that lets it sleep in `wait` only if it has no
-- zombie child.
set-NoneLost :
    (t : Table) (p : ℕ) (q : Proc)
    → NoneLost t
    → ((i : ℕ) → dead_child i (t p) ≡ false → dead_child i q ≡ false)
    → (in_wait p q ≡ true → (c : ℕ) → c < nproc → dead_child p (t c) ≡ false)
    → NoneLost (update t p q)
set-NoneLost t p q n alive quiet i c hi hc e =
    let before : dead_child i (t c) ≡ false = elim (ℕ_discrete i p) [
      | yes same ↦ let w : in_wait p q ≡ true = ground (arith, same, e) in rw same (quiet w c hc)
      | no other ↦ n i c hi hc (ground (arith, other, e))
    ] in
    elim (ℕ_discrete c p) [
      | yes here ↦
          let old : dead_child i (t p) ≡ false = ap (λ x. dead_child i (t x)) (sym here) ∙ before in
          ground (arith, here, alive i old)
      | no there ↦ ground (arith, there, before)
    ]

-- What a round of `wait` of the process `p` returns, and the table after it.
pub data Round (p : ℕ) (t : Table) : Waited → Table → Type 0 where
  reaps :
      (c : ℕ)
      → c < nproc
      → dead_child p (t c) ≡ true
      → ((d : ℕ) → d < c → dead_child p (t d) ≡ false)
      → Round p t (reaped (t c).pid) (update t c (cleared (t c)))
  no_children : ((c : ℕ) → c < nproc → is_child p (t c) ≡ false) → Round p t childless t
  is_killed :
      ((c : ℕ) → c < nproc → dead_child p (t c) ≡ false)
      → (t p).killed ≡ true
      → Round p t childless t
  falls_asleep :
      ((c : ℕ) → c < nproc → dead_child p (t c) ≡ false)
      → (c : ℕ) → c < nproc
      → is_child p (t c) ≡ true
      → (t p).killed ≡ false
      → Round p t asleep (fall_asleep p (process p) t)

abbrev killed_one : Proc → Proc
killed_one p = record p { killed = true; state = if is_sleeping p.state then runnable else p.state }

killed_one-dead : (p : Proc) (j : ℕ) → dead_child j p ≡ false → dead_child j (killed_one p) ≡ false
killed_one-dead p j h = elim (Bool-cases (is_sleeping p.state)) [
  | inl yes_asleep ↦ rw yes_asleep (ground arith)
  | inr up ↦ rw up h
]

killed_one-in_wait : (p : Proc) (i : ℕ) → in_wait i (killed_one p) ≡ false
killed_one-in_wait p i = elim (Bool-cases (is_sleeping p.state)) [
  | inl yes_asleep ↦ rw yes_asleep refl
  | inr up ↦ rw (up, up) refl
]

kill_loop-NoneLost : (k i pid : ℕ) (t : Table) → NoneLost t → NoneLost (kill_loop k i pid t).1
unfolding kill_loop
kill_loop-NoneLost zero i pid t n = n
kill_loop-NoneLost (suc k) i pid t n = elim (Bool-cases ((t i).pid == pid)) [
  | inr other ↦ rw other (kill_loop-NoneLost k (suc i) pid t n)
  | inl hit ↦
      let at : NoneLost (update t i (killed_one (t i))) =
        set-NoneLost t i (killed_one (t i)) n (λ j h. killed_one-dead (t i) j h)
          (λ h c hc. absurd (false_not_true (sym (killed_one-in_wait (t i) i) ∙ h))) in
      rw hit at
]
  where
    false_not_true : false ≡ true → ⊥
    false_not_true e = cc

-- `kill` loses no wake-up, also where it takes a process out of `wait`.
pub kill-NoneLost : (pid : ℕ) (t : Table) → NoneLost t → NoneLost (kill pid t).1
unfolding kill
kill-NoneLost pid t n = kill_loop-NoneLost nproc 0 pid t n
