-- ===== src/Proc/Births.antt =====
-- proc.c: the numbers of processes under `fork` and `wait`.
use zv.Prelude.{
  ℕ, ◌+◌, ◌%◌, ◌≤◌, ◌<◌, ◌≡◌, ◌≢◌, ◌⊎◌, refl, sym, subst, inl, inr, arith, Bool, true, false, ◌||◌,
  not, if◌then◌else◌, Bool-cases, update, Option, none, some,
}
use zv.Proc.{
  nproc, unused, embryo, sleeping, runnable, is_unused, Chan, process, Proc, Table, find_zombie,
  cleared, Waited, reaped, childless, asleep, wait, fall_asleep,
}
use zv.Proc.Spawn.{Ptable, pid_mod, find_unused, claim, allocproc, start, fork}
use zv.Proc.Pids.{Unique, update-SameLife, Unique-SameLife}

-- A new number in a slot.
fresh-Unique :
    (s : Ptable) (i : ℕ) (p : Proc)
    → Unique s
    → p.pid ≡ s.nextpid
    → s.nextpid ≢ 0
    → Unique (record { proc = update s.proc i p; nextpid = s.nextpid + 1 })
fresh-Unique s i p u new nonzero = record {
  below = λ j. ground (arith, u.below j, new);
  in_use = λ j. ground (arith, u.in_use j, new, nonzero);
  distinct = λ j k. ground (arith, u.distinct j k, u.below j, u.below k, new);
}

-- A slot is given back, with or without its number.
free-Unique :
    (s : Ptable) (i : ℕ) (p : Proc)
    → Unique s
    → (p.pid ≡ 0) ⊎ (p.pid ≡ (s.proc i).pid)
    → is_unused p.state ≡ true
    → Unique (record s { proc = update s.proc i p })
free-Unique s i p u old free = record {
  below = λ j. ground (arith, u.below j, u.below i, old);
  in_use = λ j. ground (arith, u.in_use j, free);
  distinct = λ j k. ground (arith, u.distinct j k, u.distinct i k, u.distinct j i, old);
}

claim-Unique :
    (stack : Bool) (o : Option ℕ) (s : Ptable)
    → Unique s
    → s.nextpid ≢ 0
    → s.nextpid + 1 < pid_mod
    → Unique (claim stack o s).1
claim-Unique stack none s u nonzero small = u
claim-Unique stack (some i) s u nonzero small =
    let p : Proc = record (s.proc i) { state = embryo; pid = s.nextpid } in
    let next : s.nextpid + 1 ≡ (s.nextpid + 1) % pid_mod = omega arith in
    let fresh : Unique (record { proc = update s.proc i p; nextpid = (s.nextpid + 1) % pid_mod }) =
      subst (λ n. Unique (record { proc = update s.proc i p; nextpid = n })) next
        (fresh-Unique s i p u refl nonzero) in
    ends stack fresh
  where
    t : Table
    t = update s.proc i (record (s.proc i) { state = embryo; pid = s.nextpid })

    ends :
        (stack : Bool)
        → Unique (record { proc = t; nextpid = (s.nextpid + 1) % pid_mod })
        → Unique (claim stack (some i) s).1
    ends true fresh = fresh
    ends false fresh =
        free-Unique (record { proc = t; nextpid = (s.nextpid + 1) % pid_mod }) i
          (record (t i) { state = unused }) fresh (inr refl) refl

claim-in_use :
    (stack : Bool) (o : Option ℕ) (s : Ptable) (i : ℕ)
    → (claim stack o s).0 ≡ some i
    → is_unused ((claim stack o s).1.proc i).state ≡ false
claim-in_use stack none s i e = cc
claim-in_use true (some k) s i e = ground (arith, e)
claim-in_use false (some k) s i e = cc

claim-nextpid :
    (stack : Bool) (o : Option ℕ) (s : Ptable)
    → s.nextpid + 1 < pid_mod
    → (s.nextpid ≤ (claim stack o s).1.nextpid) × ((claim stack o s).1.nextpid ≤ s.nextpid + 1)
claim-nextpid stack none s small = (omega arith, omega arith)
claim-nextpid true (some k) s small = (omega arith, omega arith)
claim-nextpid false (some k) s small = (omega arith, omega arith)

start-Unique :
    (p : ℕ) (memory : Bool) (o : Option ℕ) (s : Ptable)
    → Unique s
    → ((i : ℕ) → o ≡ some i → is_unused (s.proc i).state ≡ false)
    → Unique (start p memory o s).1
start-Unique p memory none s u lives = u
start-Unique p true (some i) s u lives =
    let child : Proc = record (s.proc i) { parent = some p; state = runnable } in
    Unique-SameLife s (update s.proc i child) u
      (update-SameLife s.proc i child refl (sym (lives i refl)))
start-Unique p false (some i) s u lives =
    free-Unique s i (record (s.proc i) { state = unused }) u (inr refl) refl

start-nextpid :
    (p : ℕ) (memory : Bool) (o : Option ℕ) (s : Ptable) → (start p memory o s).1.nextpid ≡ s.nextpid
start-nextpid p memory none s = refl
start-nextpid p true (some i) s = refl
start-nextpid p false (some i) s = refl

-- What a step keeps: the numbers, and a counter that grows by one at most.
pub record Kept (s t : Ptable) : Type 0 where
  pub unique : Unique t
  pub lower : s.nextpid ≤ t.nextpid
  pub upper : t.nextpid ≤ s.nextpid + 1

pub fork-Kept :
    (p : ℕ) (stack memory : Bool) (s : Ptable)
    → Unique s
    → s.nextpid ≢ 0
    → s.nextpid + 1 < pid_mod
    → Kept s (fork p stack memory s).1
unfolding fork allocproc
fork-Kept p stack memory s u nonzero small =
    let o = find_unused nproc 0 s.proc in
    let made = claim stack o s in
    let next = claim-nextpid stack o s small in
    let same = start-nextpid p memory made.0 made.1 in
    record {
      unique =
          start-Unique p memory made.0 made.1 (claim-Unique stack o s u nonzero small)
            (claim-in_use stack o s);
      lower = omega (arith, next.0, same);
      upper = omega (arith, next.1, same);
    }

pub sleep-Unique :
    (p : ℕ) (chan : Chan) (s : Ptable)
    → Unique s
    → is_unused (s.proc p).state ≡ false
    → Unique (record s { proc = fall_asleep p chan s.proc })
sleep-Unique p chan s u lives =
    let asleep' : Proc = record (s.proc p) { chan = chan; state = sleeping } in
    Unique-SameLife s (update s.proc p asleep') u
      (update-SameLife s.proc p asleep' refl (sym lives))

pub wait-Unique :
    (p : ℕ) (s : Ptable)
    → Unique s
    → is_unused (s.proc p).state ≡ false
    → Unique (record s { proc = (wait p s.proc).1 })
unfolding wait
wait-Unique p s u lives =
    go (find_zombie nproc 0 p false s.proc).0 (find_zombie nproc 0 p false s.proc).1
  where
    t : Table
    t = s.proc

    go :
        (o : Option ℕ) (kids : Bool)
        → Unique (record s {
          proc =
              (elim o as (λ _. Waited × Table) [
                | some c ↦ (reaped (t c).pid, update t c (cleared (t c)))
                | none ↦
                    if not kids || (t p).killed
                    then (childless, t)
                    else (asleep, fall_asleep p (process p) t)
              ]).1;
        })
    go (some c) kids = free-Unique s c (cleared (t c)) u (inl refl) refl
    go none kids = elim (Bool-cases (not kids || (t p).killed)) [
      | inl over ↦ rw over u
      | inr sleeps ↦ rw sleeps (sleep-Unique p (process p) s u lives)
    ]
