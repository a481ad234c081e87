-- ===== src/Spinlock/Exclusion.antt =====
-- spinlock.c: at most one CPU is between `acquire` and `release`, and one that waits can get there.
use zv.Prelude.{
  ℕ, ◌≡◌, ◌≢◌, refl, sym, ap, ◌∙◌, arith, Bool, true, false, ◌&&◌, ◌==◌, Option, none, some,
  ℕ_discrete, update,
}
use zv.Spinlock.{Lock, initlock, holding, xchg}
use zv.Spinlock.Cpus.{
  Point, outside, asking, spinning, taken, inside, checking, owning, leaving, World, Step, enter,
  ask, pass, spin, take, note_cpu, check, confirm, forget, leave, Steps, stay, then_step, start,
}

-- The CPU has set the lock and not yet cleared it.
abbrev pub holds : Point → Bool
holds outside = false
holds asking = false
holds spinning = false
holds taken = true
holds inside = true
holds checking = true
holds owning = true
holds leaving = true

-- What the lock then says of its CPU.
abbrev pub named : ℕ → Point → Option ℕ
named d outside = none
named d asking = none
named d spinning = none
named d taken = none
named d inside = some d
named d checking = some d
named d owning = some d
named d leaving = none

-- The lock is free, or one CPU has it.
pub data Owned (w : World) : Type 0 where
  nobody : w.lock.locked ≡ false → w.lock.cpu ≡ none → ((c : ℕ) → holds (w.at c) ≡ false) → Owned w
  somebody :
      (d : ℕ)
      → w.lock.locked ≡ true
      → w.lock.cpu ≡ named d (w.at d)
      → holds (w.at d) ≡ true
      → ((c : ℕ) → c ≢ d → holds (w.at c) ≡ false)
      → Owned w

-- A CPU that has set the lock is the one.
the_one :
    (w : World) (c d : ℕ)
    → ((x : ℕ) → x ≢ d → holds (w.at x) ≡ false)
    → holds (w.at c) ≡ true
    → c ≡ d
the_one w c d others h = elim (ℕ_discrete c d) [
  | yes e ↦ e
  | no ne ↦ ground (arith, others c ne, h)
]

-- A CPU moves that has not set the lock, and does not now.
Owned-away :
    (v : World) (c : ℕ) (y : Point)
    → holds (v.at c) ≡ false
    → holds y ≡ false
    → Owned v
    → Owned (record v { at = update v.at c y })
Owned-away v c y away stays (nobody free unnamed none_there) =
    nobody free unnamed (λ x. ground (arith, none_there x, stays))
Owned-away v c y away stays (somebody d busy name has others) =
    let other : (d == c) ≡ false = ground (arith, away, has) in
    somebody d busy (ground (arith, other, name)) (ground (arith, other, has))
      (λ x ne. ground (arith, others x ne, stays))

-- The CPU that has the lock moves on inside.
Owned-on :
    (v : World) (c : ℕ) (y : Point)
    → holds (v.at c) ≡ true
    → holds y ≡ true
    → named c y ≡ named c (v.at c)
    → Owned v
    → Owned (record v { at = update v.at c y })
Owned-on v c y has_it stays same (nobody free unnamed none_there) =
    ground (arith, has_it, none_there c)
Owned-on v c y has_it stays same (somebody d busy name has others) =
    let me : c ≡ d = the_one v c d others has_it in
    let name' : v.lock.cpu ≡ named c (v.at c) = name ∙ ap (λ x. named x (v.at x)) (sym me) in
    somebody c busy (ground (arith, name', same)) (ground (arith, stays))
      (λ x ne. ground (arith, ne, others x (λ e. ne (e ∙ sym me))))

Step-Owned : (c : ℕ) (v w : World) → Step c v w → Owned v → Owned w
unfolding holding xchg
Step-Owned c v w (enter out unlocked) o = Owned-away v c spinning out_of refl o
  where
    out_of : holds (v.at c) ≡ false
    out_of = ground (arith, out)
Step-Owned c v w (ask out is_locked) o = Owned-away v c asking out_of refl o
  where
    out_of : holds (v.at c) ≡ false
    out_of = ground (arith, out)
Step-Owned c v w (pass at not_mine) o = Owned-away v c spinning out_of refl o
  where
    out_of : holds (v.at c) ≡ false
    out_of = ground (arith, at)
Step-Owned c v w (check at is_locked) o = Owned-on v c checking out_of refl (ground (arith, at)) o
  where
    out_of : holds (v.at c) ≡ true
    out_of = ground (arith, at)
Step-Owned c v w (confirm at mine) o = Owned-on v c owning out_of refl (ground (arith, at)) o
  where
    out_of : holds (v.at c) ≡ true
    out_of = ground (arith, at)
Step-Owned c v w (spin at busy) (nobody free unnamed none_there) = ground (arith, busy, free)
Step-Owned c v w (spin at busy) (somebody d busy' name has others) = somebody d refl name has others
Step-Owned c v w (take at free) (nobody free' unnamed none_there) =
    somebody c refl (ground (arith, unnamed)) (ground arith)
      (λ x ne. ground (arith, ne, none_there x))
Step-Owned c v w (take at free) (somebody d busy name has others) = ground (arith, busy, free)
Step-Owned c v w (note_cpu at q) (nobody free unnamed none_there) = ground (arith, at, none_there c)
Step-Owned c v w (note_cpu at q) (somebody d busy name has others) =
    let me : c ≡ d = the_one v c d others (ap holds at) in
    somebody c (ground (arith, q, busy)) (ground (arith, q)) (ground arith)
      (λ x ne. ground (arith, ne, others x (λ e. ne (e ∙ sym me))))
Step-Owned c v w (forget at q) (nobody free unnamed none_there) = ground (arith, at, none_there c)
Step-Owned c v w (forget at q) (somebody d busy name has others) =
    let me : c ≡ d = the_one v c d others (ap holds at) in
    somebody c (ground (arith, q, busy)) (ground (arith, q)) (ground arith)
      (λ x ne. ground (arith, ne, others x (λ e. ne (e ∙ sym me))))
Step-Owned c v w (leave at) (nobody free unnamed none_there) = ground (arith, at, none_there c)
Step-Owned c v w (leave at) (somebody d busy name has others) =
    let me : c ≡ d = the_one v c d others (ap holds at) in
    nobody refl (ground (arith, name, me, at)) (λ x. elim (ℕ_discrete x c) [
      | yes e ↦ ground (arith, e)
      | no ne ↦ ground (arith, ne, others x (λ e. ne (e ∙ sym me)))
    ])

pub Steps-Owned : (lk : Lock) (w : World) → Steps (start lk) w → Owned w
unfolding initlock start
Steps-Owned lk w s = go (start lk) w s (nobody refl refl (λ c. refl))
  where
    go : (u w : World) → Steps u w → Owned u → Owned w
    go u w stay o = o
    go u w (then_step {c = c} {v = v} ss s) o = Step-Owned c v w s (go u v ss o)

holding_of :
    (c : ℕ) (lk : Lock)
    → holding c lk ≡ (lk.locked && (elim lk.cpu [ some d ↦ d == c | none ↦ false ]))
unfolding holding
holding_of c lk = refl

-- The lock names a CPU only between its calls.
not_named : (c d : ℕ) (y : Point) (l : Lock) → l.cpu ≡ named d y → c ≢ d → l.cpu ≢ some c
not_named c d inside l h ne e = ground (arith, h, ne, e)
not_named c d checking l h ne e = ground (arith, h, ne, e)
not_named c d owning l h ne e = ground (arith, h, ne, e)
not_named c d outside l h ne e = ground (arith, h, e)
not_named c d asking l h ne e = ground (arith, h, e)
not_named c d spinning l h ne e = ground (arith, h, e)
not_named c d taken l h ne e = ground (arith, h, e)
not_named c d leaving l h ne e = ground (arith, h, e)

not_holding : (c : ℕ) (lk : Lock) → lk.cpu ≢ some c → holding c lk ≡ false
not_holding c lk ne = holding_of c lk ∙ by_cpu lk.cpu ne
  where
    by_cpu :
        (o : Option ℕ)
        → o ≢ some c
        → (lk.locked && (elim o as (λ _. Bool) [ some d ↦ d == c | none ↦ false ])) ≡ false
    by_cpu none ne = ground arith
    by_cpu (some d) ne = let other : (d == c) ≡ false = ground (arith, ne) in ground (arith, other)

-- Of CPUs that acquire and release a free lock, in any order of their accesses to it, at most one is
-- between `acquire` and `release`.  It finds that it holds the lock, also when it reads the two fields of
-- the lock at different times, so that `release` does not panic; a CPU that is outside finds that it does
-- not, also when it reads them at different times, so that `acquire` does not panic.
pub exclusion :
    (lk : Lock) (w : World)
    → Steps (start lk) w
    → ((c d : ℕ) → w.at c ≡ inside → w.at d ≡ inside → c ≡ d)
      × ((c : ℕ) → w.at c ≡ inside → holding c w.lock ≡ true)
      × ((c : ℕ) → w.at c ≡ outside → holding c w.lock ≡ false)
      × ((c : ℕ) → w.at c ≡ checking → w.lock.cpu ≡ some c)
      × ((c : ℕ) → w.at c ≡ asking → w.lock.cpu ≢ some c)
exclusion lk w s = go (Steps-Owned lk w s)
  where
    go :
        Owned w
        → ((c d : ℕ) → w.at c ≡ inside → w.at d ≡ inside → c ≡ d)
          × ((c : ℕ) → w.at c ≡ inside → holding c w.lock ≡ true)
          × ((c : ℕ) → w.at c ≡ outside → holding c w.lock ≡ false)
          × ((c : ℕ) → w.at c ≡ checking → w.lock.cpu ≡ some c)
          × ((c : ℕ) → w.at c ≡ asking → w.lock.cpu ≢ some c)
    go (nobody free unnamed none_there) = (
      λ c d h h'. ground (arith, h, none_there c),
      λ c h. ground (arith, h, none_there c),
      λ c h. holding_of c w.lock ∙ ground (arith, free),
      λ c h. ground (arith, h, none_there c),
      λ c h e. ground (arith, unnamed, e),
    )
    go (somebody d busy name has others) = (
      λ a b h h'. the_one w a d others (ap holds h) ∙ sym (the_one w b d others (ap holds h')),
      λ c h.
          let me : c ≡ d = the_one w c d others (ap holds h) in
          holding_of c w.lock ∙ ground (arith, busy, name, me, h),
      λ c h.
          not_holding c w.lock
            (not_named c d (w.at d) w.lock name (λ e. ground (arith, e, h, has))),
      λ c h. let me : c ≡ d = the_one w c d others (ap holds h) in ground (arith, name, me, h),
      λ c h. not_named c d (w.at d) w.lock name (λ e. ground (arith, e, h, has)),
    )
