-- ===== src/Proc/Pids.antt =====
-- proc.c: the numbers of processes.
use zv.Prelude.{
  ℕ, zero, suc, ◌<◌, ◌≡◌, ◌≢◌, refl, sym, ◌∙◌, inl, inr, arith, true, false, ◌&&◌, ◌==◌,
  if◌then◌else◌, Bool-cases, update, some,
}
use zv.Proc.{
  nproc, Procstate, unused, embryo, sleeping, runnable, running, zombie, is_unused, is_sleeping,
  is_zombie, Chan, process, same_chan, Proc, Table, is_child, woken, wake_loop, wakeup, given,
  abandon, abandon_loop, parent_chan, exit, kill_loop, kill,
}
use zv.Proc.Spawn.{Ptable, set_state}

-- Numbers other than 0 belong to one slot each, were given out before, and each slot in use has one.
pub record Unique (s : Ptable) : Type 0 where
  pub below : (j : ℕ) → (s.proc j).pid < s.nextpid
  pub in_use : (j : ℕ) → is_unused (s.proc j).state ≡ false → (s.proc j).pid ≢ 0
  pub distinct : (i j : ℕ) → (s.proc i).pid ≡ (s.proc j).pid → (s.proc i).pid ≢ 0 → i ≡ j

-- The same numbers, and the same slots in use.
pub record SameLife (t t' : Table) : Type 0 where
  pub same : (j : ℕ) → ((t' j).pid ≡ (t j).pid) × (is_unused (t' j).state ≡ is_unused (t j).state)

SameLife-refl : {t : Table} → SameLife t t
SameLife-refl = record { same = λ j. (refl, refl) }

SameLife-trans : {t u v : Table} → SameLife t u → SameLife u v → SameLife t v
SameLife-trans f g = record {
  same = λ j. ((g.same j).0 ∙ (f.same j).0, (g.same j).1 ∙ (f.same j).1);
}

-- One slot changes, but neither its number nor whether it is in use.
pub update-SameLife :
    (t : Table) (i : ℕ) (p : Proc)
    → p.pid ≡ (t i).pid
    → is_unused p.state ≡ is_unused (t i).state
    → SameLife t (update t i p)
update-SameLife t i p same_pid same_use = record { same = λ j. ground (arith, same_pid, same_use) }

pub Unique-SameLife :
    (s : Ptable) (t : Table) → Unique s → SameLife s.proc t → Unique (record s { proc = t })
Unique-SameLife s t u h = record {
  below = λ j. ground (arith, u.below j, (h.same j).0);
  in_use = λ j e zero_pid. u.in_use j (sym (h.same j).1 ∙ e) (sym (h.same j).0 ∙ zero_pid);
  distinct =
      λ i j e nz. u.distinct i j (sym (h.same i).0 ∙ e ∙ (h.same j).0) (λ z. nz ((h.same i).0 ∙ z));
}

-- A process that is woken was in use.
sleeping_used : (st : Procstate) → is_sleeping st ≡ true → is_unused runnable ≡ is_unused st
sleeping_used sleeping e = refl
sleeping_used unused e = cc
sleeping_used embryo e = cc
sleeping_used runnable e = cc
sleeping_used running e = cc
sleeping_used zombie e = cc

woken-SameLife : (i : ℕ) (chan : Chan) (t : Table) → SameLife t (update t i (woken chan (t i)))
woken-SameLife i chan t = elim (Bool-cases (is_sleeping (t i).state && same_chan (t i).chan chan)) [
  | inl e ↦
      update-SameLife t i (woken chan (t i)) (rw e refl)
        (rw e (sleeping_used (t i).state (ground (arith, e))))
  | inr e ↦ update-SameLife t i (woken chan (t i)) (rw e refl) (rw e refl)
]

wake_loop-SameLife : (k i : ℕ) (chan : Chan) (t : Table) → SameLife t (wake_loop k i chan t)
unfolding wake_loop
wake_loop-SameLife zero i chan t = SameLife-refl
wake_loop-SameLife (suc k) i chan t =
    SameLife-trans (woken-SameLife i chan t)
      (wake_loop-SameLife k (suc i) chan (update t i (woken chan (t i))))

pub wakeup-SameLife : (chan : Chan) (t : Table) → SameLife t (wakeup chan t)
unfolding wakeup
wakeup-SameLife chan t = wake_loop-SameLife nproc 0 chan t

given-SameLife : (i init : ℕ) (t : Table) → SameLife t (given i init t)
given-SameLife i init t = update-SameLife t i (record (t i) { parent = some init }) refl refl

abandon-SameLife : (i p init : ℕ) (t : Table) → SameLife t (abandon i p init t)
unfolding abandon
abandon-SameLife i p init t =
    let moved = given-SameLife i init t in
    elim (Bool-cases (is_child p (t i))) [
      | inl child ↦ elim (Bool-cases (is_zombie (t i).state)) [
        | inl dead ↦
            rw (child, dead)
              (SameLife-trans moved (wakeup-SameLife (process init) (given i init t)))
        | inr lives ↦ rw (child, lives) moved
      ]
      | inr other ↦ rw other SameLife-refl
    ]

abandon_loop-SameLife : (k i p init : ℕ) (t : Table) → SameLife t (abandon_loop k i p init t)
unfolding abandon_loop
abandon_loop-SameLife zero i p init t = SameLife-refl
abandon_loop-SameLife (suc k) i p init t =
    SameLife-trans (abandon-SameLife i p init t)
      (abandon_loop-SameLife k (suc i) p init (abandon i p init t))

pub exit-SameLife :
    (init p : ℕ) (t : Table) → is_unused (t p).state ≡ false → SameLife t (exit init p t)
unfolding exit
exit-SameLife init p t lives =
    let told = wakeup (parent_chan (t p).parent) t in
    let left = abandon_loop nproc 0 p init told in
    let so_far =
      SameLife-trans (wakeup-SameLife (parent_chan (t p).parent) t)
        (abandon_loop-SameLife nproc 0 p init told) in
    SameLife-trans so_far (
      update-SameLife left p (record (left p) { state = zombie }) refl
        (sym ((so_far.same p).1 ∙ lives)))

kill_loop-SameLife : (k i pid : ℕ) (t : Table) → SameLife t (kill_loop k i pid t).1
unfolding kill_loop
kill_loop-SameLife zero i pid t = SameLife-refl
kill_loop-SameLife (suc k) i pid t = elim (Bool-cases ((t i).pid == pid)) [
  | inl found ↦ rw found (
      update-SameLife t i
        (record (t i) {
          killed = true;
          state = if is_sleeping (t i).state then runnable else (t i).state;
        })
        refl (still_used (t i).state))
  | inr other ↦ rw other (kill_loop-SameLife k (suc i) pid t)
]
  where
    still_used :
        (st : Procstate) → is_unused (if is_sleeping st then runnable else st) ≡ is_unused st
    still_used unused = refl
    still_used embryo = refl
    still_used sleeping = refl
    still_used runnable = refl
    still_used running = refl
    still_used zombie = refl

pub kill-SameLife : (pid : ℕ) (t : Table) → SameLife t (kill pid t).1
unfolding kill
kill-SameLife pid t = kill_loop-SameLife nproc 0 pid t

-- A slot gets a state in which it is in use.
pub set_state-SameLife :
    (p : ℕ) (st : Procstate) (t : Table)
    → is_unused (t p).state ≡ false
    → is_unused st ≡ false
    → SameLife t (set_state p st t)
set_state-SameLife p st t lives used =
    update-SameLife t p (record (t p) { state = st }) refl (used ∙ sym lives)
