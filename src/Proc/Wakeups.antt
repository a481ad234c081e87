-- ===== src/Proc/Wakeups.antt =====
-- No wake-up is lost in proc.c: a process that sleeps in `wait` has no zombie child.
use zv.Prelude.{
  ℕ, ◌<◌, ◌≡◌, ◌≢◌, refl, sym, ap, ◌∙◌, inl, inr, arith, Bool, true, false, ◌&&◌, ==_iff,
  Bool-cases,
}
use zv.Proc.{
  nproc, Procstate, unused, embryo, sleeping, runnable, running, zombie, is_sleeping, is_zombie,
  Chan, process, same_chan, Proc, Table, is_child, woken, wakeup,
}
use zv.Proc.Loops.{wakeup_lem}

-- The process in slot `i` sleeps in `wait`.
abbrev pub in_wait : ℕ → Proc → Bool
in_wait i p = is_sleeping p.state && same_chan p.chan (process i)

abbrev pub dead_child : ℕ → Proc → Bool
dead_child i c = is_child i c && is_zombie c.state

abbrev pub NoneLost : Table → Type 0
NoneLost t = (i c : ℕ) → i < nproc → c < nproc → in_wait i (t i) ≡ true → dead_child i (t c) ≡ false

pub asleep_alive : (s : Procstate) → is_sleeping s ≡ true → is_zombie s ≡ false
asleep_alive unused e = refl
asleep_alive embryo e = refl
asleep_alive sleeping e = refl
asleep_alive runnable e = refl
asleep_alive running e = refl
asleep_alive zombie e = cc

pub same_chan_self : (i : ℕ) → same_chan (process i) (process i) ≡ true
same_chan_self i = (==_iff i i).1 refl

woken-dead : (chan : Chan) (p : Proc) (i : ℕ) → dead_child i (woken chan p) ≡ dead_child i p
woken-dead chan p i = elim (Bool-cases (is_sleeping p.state && same_chan p.chan chan)) [
  | inl hit ↦ rw hit (ground (arith, asleep_alive p.state))
  | inr miss ↦ rw miss refl
]

woken-child : (chan : Chan) (p : Proc) (i : ℕ) → is_child i (woken chan p) ≡ is_child i p
woken-child chan p i = elim (Bool-cases (is_sleeping p.state && same_chan p.chan chan)) [
  | inl hit ↦ rw hit refl
  | inr miss ↦ rw miss refl
]

woken-in_wait :
    (chan : Chan) (p : Proc) (i : ℕ)
    → in_wait i (woken chan p) ≡ true
    → (in_wait i p ≡ true) × (chan ≢ process i)
woken-in_wait chan p i e = elim (Bool-cases (is_sleeping p.state && same_chan p.chan chan)) [
  | inl hit ↦ let h = rw hit at e in cc
  | inr miss ↦
      let h : in_wait i p ≡ true = rw miss at e in
      (h, λ q. let m : in_wait i p ≡ false = rw (← q) miss in ground (arith, h, m))
]

module _ (chan : Chan) (t : Table) where
  pub wakeup-NoneLost : NoneLost t → NoneLost (wakeup chan t)
  wakeup-NoneLost n i c hi hc e =
      let at : in_wait i (woken chan (t i)) ≡ true =
        ap (in_wait i) (sym (wakeup_lem chan t i hi)) ∙ e in
      ap (dead_child i) (wakeup_lem chan t c hc)
      ∙ woken-dead chan (t c) i
      ∙ n i c hi hc (woken-in_wait chan (t i) i at).0

  pub wakeup-in_wait :
      (i : ℕ)
      → i < nproc
      → in_wait i (wakeup chan t i) ≡ true
      → (in_wait i (t i) ≡ true) × (chan ≢ process i)
  wakeup-in_wait i hi e =
      woken-in_wait chan (t i) i (ap (in_wait i) (sym (wakeup_lem chan t i hi)) ∙ e)

  pub wakeup-child : (i c : ℕ) → c < nproc → is_child i (wakeup chan t c) ≡ is_child i (t c)
  wakeup-child i c h = ap (is_child i) (wakeup_lem chan t c h) ∙ woken-child chan (t c) i

  pub wakeup-dead : (i c : ℕ) → c < nproc → dead_child i (wakeup chan t c) ≡ dead_child i (t c)
  wakeup-dead i c h = ap (dead_child i) (wakeup_lem chan t c h) ∙ woken-dead chan (t c) i
