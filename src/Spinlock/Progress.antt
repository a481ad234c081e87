-- ===== src/Spinlock/Progress.antt =====
-- spinlock.c: a CPU that waits for the lock can get it.
use zv.Prelude.{ℕ, ◌≡◌, refl, arith, true, false, ◌==◌, none, some, update}
use zv.Spinlock.{Lock, xchg}
use zv.Spinlock.Cpus.{
  Point, outside, asking, spinning, taken, inside, checking, owning, leaving, World, take, note_cpu,
  check, confirm, forget, leave, Steps, stay, then_step, start,
}
use zv.Spinlock.Exclusion.{holds, named, Owned, nobody, somebody, Steps-Owned}

-- From `u` on the CPU `c` can come to stand between the calls.
abbrev CanEnter : World → ℕ → Type 0
CanEnter u c = (v : World) × Steps u v × (v.at c ≡ inside)

-- The world `u` is where the CPU waits, and `w` one that the others lead to from there.
module _ (lk : Lock) (c : ℕ) (u : World) where
  from_free : (w : World) → Steps u w → w.at c ≡ spinning → w.lock.locked ≡ false → CanEnter u c
  unfolding xchg
  from_free w s waits free =
      let a : World = record w { lock = (xchg true w.lock).1; at = update w.at c taken } in
      let l : Lock = record (a.lock) { cpu = some c } in
      let at : a.at c ≡ taken = ground arith in
      let s' : Steps u a = then_step s (take waits free) in
      (
        record a { lock = l; at = update a.at c inside },
        then_step s' (note_cpu at refl),
        ground arith,
      )

  from_leaving :
      (d : ℕ) (w : World) → Steps u w → w.at c ≡ spinning → w.at d ≡ leaving → CanEnter u c
  unfolding xchg
  from_leaving d w s waits there =
      let other : (c == d) ≡ false = ground (arith, waits, there) in
      from_free (record w { lock = (xchg false w.lock).1; at = update w.at d outside })
        (then_step s (leave there)) (ground (arith, other, waits)) refl

  from_owning : (d : ℕ) (w : World) → Steps u w → w.at c ≡ spinning → w.at d ≡ owning → CanEnter u c
  from_owning d w s waits there =
      let other : (c == d) ≡ false = ground (arith, waits, there) in
      let l : Lock = record (w.lock) { cpu = none } in
      from_leaving d (record w { lock = l; at = update w.at d leaving })
        (then_step s (forget there refl)) (ground (arith, other, waits)) (ground arith)

  from_checking :
      (d : ℕ) (w : World)
      → Steps u w
      → w.at c ≡ spinning
      → w.at d ≡ checking
      → w.lock.cpu ≡ some d
      → CanEnter u c
  from_checking d w s waits there mine =
      let other : (c == d) ≡ false = ground (arith, waits, there) in
      from_owning d (record w { at = update w.at d owning }) (then_step s (confirm there mine))
        (ground (arith, other, waits)) (ground arith)

  from_inside :
      (d : ℕ) (w : World)
      → Steps u w
      → w.at c ≡ spinning
      → w.at d ≡ inside
      → w.lock.locked ≡ true
      → w.lock.cpu ≡ some d
      → CanEnter u c
  from_inside d w s waits there busy mine =
      let other : (c == d) ≡ false = ground (arith, waits, there) in
      from_checking d (record w { at = update w.at d checking }) (then_step s (check there busy))
        (ground (arith, other, waits)) (ground arith) mine

  from_taken :
      (d : ℕ) (w : World)
      → Steps u w
      → w.at c ≡ spinning
      → w.at d ≡ taken
      → w.lock.locked ≡ true
      → CanEnter u c
  from_taken d w s waits there busy =
      let other : (c == d) ≡ false = ground (arith, waits, there) in
      let l : Lock = record (w.lock) { cpu = some d } in
      from_inside d (record w { lock = l; at = update w.at d inside })
        (then_step s (note_cpu there refl)) (ground (arith, other, waits)) (ground arith) busy refl

  -- Whatever the CPUs have done with a lock that was free, a CPU that is then in the loop of `acquire` is not shut out: from that state on the CPUs have a way to go on in which it gets the lock.
  pub spinner_enters : Steps (start lk) u → u.at c ≡ spinning → CanEnter u c
  spinner_enters r waits = go (Steps-Owned lk u r)
    where
      by_point :
          (d : ℕ) (y : Point)
          → u.at d ≡ y
          → holds y ≡ true
          → u.lock.locked ≡ true
          → u.lock.cpu ≡ named d y
          → CanEnter u c
      by_point d taken q h busy name = from_taken d u stay waits q busy
      by_point d inside q h busy name = from_inside d u stay waits q busy name
      by_point d checking q h busy name = from_checking d u stay waits q name
      by_point d owning q h busy name = from_owning d u stay waits q
      by_point d leaving q h busy name = from_leaving d u stay waits q
      by_point d outside q h busy name = ground (arith, h)
      by_point d asking q h busy name = ground (arith, h)
      by_point d spinning q h busy name = ground (arith, h)

      go : Owned u → CanEnter u c
      go (nobody free unnamed none_there) = from_free u stay waits free
      go (somebody d busy name has others) = by_point d (u.at d) refl has busy name
