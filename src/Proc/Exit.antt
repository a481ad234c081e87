-- ===== src/Proc/Exit.antt =====
-- `exit` (proc.c) wakes whoever has to learn of it.
use zv.Prelude.{
  ℕ, zero, suc, ◌+◌, ◌≤◌, ◌<◌, ◌≡◌, ◌≢◌, refl, sym, ap, ◌∙◌, ◌⊎◌, inl, inr, arith, Bool, true,
  false, ◌==◌, ==_iff, update, Option, none, some, Bool-cases, ℕ_discrete,
}
use zv.Proc.{
  nproc, zombie, is_zombie, Chan, process, Table, is_child, wakeup, given, abandon, abandon_loop,
  exit, parent_chan,
}
use zv.Proc.Wakeups.{
  in_wait, dead_child, NoneLost, wakeup-NoneLost, wakeup-in_wait, wakeup-child, wakeup-dead,
}

-- The table while `p` exits: no wake-up is lost, no process is its own parent, and `init` is no child
-- of `p`.
pub record Sound (init p : ℕ) (t : Table) : Type 0 where
  pub none_lost : NoneLost t
  pub own : (c : ℕ) → c < nproc → is_child c (t c) ≡ false
  pub top : is_child p (t init) ≡ false

-- What an exiting process does to the others: none falls asleep, and its own parent stays.
pub record Kept (p : ℕ) (t t' : Table) : Type 0 where
  pub waits : (a : ℕ) → a < nproc → in_wait a (t' a) ≡ true → in_wait a (t a) ≡ true
  pub parent : (q : ℕ) → is_child q (t' p) ≡ is_child q (t p)

parent_chan-child :
    (i : ℕ) (o : Option ℕ)
    → elim o as (λ _. Bool) [ some q ↦ q == i | none ↦ false ] ≡ true
    → parent_chan o ≡ process i
parent_chan-child i none e = cc
parent_chan-child i (some q) e = ap process ((==_iff q i).0 e)

module _ (init p : ℕ) (hi : init < nproc) (hp : p < nproc) where
  wakeup-Sound : (chan : Chan) (t : Table) → Sound init p t → Sound init p (wakeup chan t)
  wakeup-Sound chan t s = record {
    none_lost = wakeup-NoneLost chan t s.none_lost;
    own = λ c h. wakeup-child chan t c c h ∙ s.own c h;
    top = wakeup-child chan t p init hi ∙ s.top;
  }

  wakeup-Kept : (chan : Chan) (t : Table) → Kept p t (wakeup chan t)
  wakeup-Kept chan t = record {
    waits = λ a h e. (wakeup-in_wait chan t a h e).0;
    parent = λ q. wakeup-child chan t q p hp;
  }

  Kept-trans : {t u v : Table} → Kept p t u → Kept p u v → Kept p t v
  Kept-trans a b = record {
    waits = λ x h e. a.waits x h (b.waits x h e);
    parent = λ q. b.parent q ∙ a.parent q;
  }

  module _ (i : ℕ) (t : Table) (s : Sound init p t) (lt : i < nproc)
      (child : is_child p (t i) ≡ true) where
    not_init : init ≢ i
    not_init e =
        let h : is_child p (t i) ≡ false = ap (λ x. is_child p (t x)) (sym e) ∙ s.top in
        ground (arith, child, h)

    not_self : p ≢ i
    not_self e =
        let h : is_child p (t i) ≡ false = ap (λ x. is_child p (t x)) (sym e) ∙ s.own p hp in
        ground (arith, child, h)

    given-Kept : Kept p t (given i init t)
    given-Kept = record {
      waits = λ a h e. ground (arith, e);
      parent = λ q. ground (arith, not_self);
    }

    given-own : (c : ℕ) → c < nproc → is_child c (given i init t c) ≡ false
    given-own c h = ground (arith, s.own c h, not_init)

    given-top : is_child p (given i init t init) ≡ false
    given-top = ground (arith, s.top, not_init)

    given-dead :
        (a c : ℕ)
        → a < nproc
        → c < nproc
        → in_wait a (t a) ≡ true
        → (a ≢ init) ⊎ (is_zombie (t i).state ≡ false)
        → dead_child a (given i init t c) ≡ false
    given-dead a c ha hc e why = ground (arith, s.none_lost a c ha hc e, why)

    given_awake : is_zombie (t i).state ≡ false → Sound init p (given i init t)
    given_awake alive = record {
      none_lost = λ a c ha hc e. given-dead a c ha hc (given-Kept.waits a ha e) (inr alive);
      own = given-own;
      top = given-top;
    }

    given_told : Sound init p (wakeup (process init) (given i init t))
    given_told = record {
      none_lost = λ a c ha hc e.
          let (w, ne) = wakeup-in_wait (process init) (given i init t) a ha e in
          wakeup-dead (process init) (given i init t) a c hc
          ∙ given-dead a c ha hc (given-Kept.waits a ha w) (inl (λ q. ne (ap process (sym q))));
      own = λ c h. wakeup-child (process init) (given i init t) c c h ∙ given-own c h;
      top = wakeup-child (process init) (given i init t) p init hi ∙ given-top;
    }

  abandon_lem :
      (i : ℕ) (t : Table)
      → Sound init p t
      → i < nproc
      → Sound init p (abandon i p init t) × Kept p t (abandon i p init t)
  unfolding abandon
  abandon_lem i t s lt = elim (Bool-cases (is_child p (t i))) [
    | inr other ↦ rw other (s, record { waits = λ a h e. e; parent = λ q. refl })
    | inl child ↦ elim (Bool-cases (is_zombie (t i).state)) [
      | inl dead ↦
          rw (child, dead)
            (
              given_told i t s lt child,
              Kept-trans (given-Kept i t s lt child) (wakeup-Kept (process init) (given i init t)),
            )
      | inr alive ↦ rw (child, alive) (given_awake i t s lt child alive, given-Kept i t s lt child)
    ]
  ]

  abandon_loop_lem :
      (k i : ℕ) (t : Table)
      → Sound init p t
      → i + k ≤ nproc
      → Sound init p (abandon_loop k i p init t) × Kept p t (abandon_loop k i p init t)
  unfolding abandon_loop
  abandon_loop_lem zero i t s le = (s, record { waits = λ a h e. e; parent = λ q. refl })
  abandon_loop_lem (suc k) i t s le =
      let (s', kept) = abandon_lem i t s (omega arith) in
      let (s'', kept') = abandon_loop_lem k (suc i) (abandon i p init t) s' (omega arith) in
      (s'', Kept-trans kept kept')

  last_step :
      (chan : Chan) (t left : Table)
      → Sound init p left
      → Kept p (wakeup chan t) left
      → ((i : ℕ) → is_child i (t p) ≡ true → chan ≡ process i)
      → NoneLost (update left p (record (left p) { state = zombie }))
  last_step chan t left s kept only i c ha hc e = elim (ℕ_discrete i p) [
    | yes same ↦
        let h : in_wait i (update left p (record (left p) { state = zombie }) i) ≡ false =
          ground (arith, same) in
        ground (arith, e, h)
    | no other ↦
        let w : in_wait i (left i) ≡ true = ground (arith, other, e) in
        elim (ℕ_discrete c p) [
          | no not_p ↦ ground (arith, not_p, s.none_lost i c ha hc w)
          | yes is_p ↦ elim (Bool-cases (is_child i (left p))) [
            | inr free ↦ rw is_p (ground (arith, free))
            | inl child ↦
                let told : chan ≡ process i =
                  only i (sym (kept.parent i ∙ wakeup-child chan t i p hp) ∙ child) in
                absurd ((wakeup-in_wait chan t i ha (kept.waits i ha w)).1 told)
          ]
        ]
  ]

  told_left :
      (chan : Chan) (t : Table)
      → Sound init p t
      → ((i : ℕ) → is_child i (t p) ≡ true → chan ≡ process i)
      → NoneLost (
          update
            (abandon_loop nproc 0 p init (wakeup chan t))
            p
            (record (abandon_loop nproc 0 p init (wakeup chan t) p) { state = zombie }))
  told_left chan t s only =
      let (s', kept) =
        abandon_loop_lem nproc 0 (wakeup chan t) (wakeup-Sound chan t s) (omega arith) in
      last_step chan t _ s' kept only

-- When a process other than `init` exits, no wake-up is lost, if none was lost before, no process is its own parent and `init` is not a child of the process: whoever sleeps in `wait` still has no zombie child, be it the parent of the process or `init`, which gets its children.
pub exit-NoneLost :
    (init p : ℕ) (t : Table) → init < nproc → p < nproc → Sound init p t → NoneLost (exit init p t)
unfolding exit
exit-NoneLost init p t hi hp s =
    told_left init p hi hp (parent_chan (t p).parent) t s
      (λ i e. parent_chan-child i (t p).parent e)
