-- ===== src/Sysfile/Keeps.antt =====
-- sysfile.c: calls that keep the reference counts of the open files.
use zv.Prelude.{ℕ, ◌≡◌, arith, Bool, true, false, if◌then◌else◌, String, Option, none, some, ok}
use zv.Syscall.{User}
use zv.Fs.{M}
use zv.Files.{Kernel, K, pure, fail, ◌>>=◌, lift}
use zv.Files.Refs.{bind_ok, SameFiles, lift-SameFiles, Counted}
use zv.Sysfile.{ask}

module _ (others : ℕ → ℕ) where
  -- Where the call returns, the counts are right afterwards if they were before.
  pub record Keeps {ℓ} {A : Type ℓ} (m : K A) : Type ℓ where
    pub keeps :
        (s : Kernel) (a : A) (t : Kernel) → Counted others s → m s ≡ ok (a, t) → Counted others t

  pub SameFiles-Counted : (s t : Kernel) → SameFiles s t → Counted others s → Counted others t
  SameFiles-Counted s t (files, ofile) c = record { counted = λ f. rw (files, ofile) (c.counted f) }

  pub pure-Keeps {ℓ} : {A : Type ℓ} (a : A) → Keeps (pure a)
  pure-Keeps a = record { keeps = λ s b t c e. let same : t ≡ s = ground (arith, e) in rw same c }

  pub fail-Keeps {ℓ} : {A : Type ℓ} (e : String) → Keeps (fail {A = A} e)
  fail-Keeps x = record { keeps = λ s b t c e. ground (arith, e) }

  pub lift-Keeps {ℓ} : {A : Type ℓ} (m : M A) → Keeps (lift m)
  lift-Keeps m = record { keeps = λ s a t c e. SameFiles-Counted s t (lift-SameFiles m s a t e) c }

  pub ask-Keeps {ℓ} : {A : Type ℓ} (q : User → A) → Keeps (ask q)
  unfolding ask
  ask-Keeps q = record { keeps = λ s b t c e. let same : t ≡ s = ground (arith, e) in rw same c }

  pub bind-Keeps {ℓ κ} :
      {A : Type ℓ} {B : Type κ} {m : K A} {f : A → K B}
      → Keeps m
      → ((a : A) → Keeps (f a))
      → Keeps (m >>= f)
  bind-Keeps {m} {f} k h = record {
    keeps = λ s b t c e.
        let (a, u, e1, e2) = bind_ok m f s b t e in (h a).keeps u b t (k.keeps s a u c e1) e2;
  }

  pub if-Keeps {ℓ} :
      {A : Type ℓ} {m n : K A} (b : Bool) → Keeps m → Keeps n → Keeps (if b then m else n)
  if-Keeps true k h = k
  if-Keeps false k h = h

  pub option-Keeps {ℓ κ} :
      {A : Type ℓ} {B : Type κ} {n : K B} {f : A → K B} (r : Option A)
      → Keeps n
      → ((a : A) → Keeps (f a))
      → Keeps (elim r [ none ↦ n | some a ↦ f a ])
  option-Keeps none k h = k
  option-Keeps (some a) k h = h a

  pub lift_then {ℓ κ} :
      {A : Type ℓ} {B : Type κ} (m : M A) {f : A → K B}
      → ((a : A) → Keeps (f a))
      → Keeps (lift m >>= f)
  lift_then m h = bind-Keeps (lift-Keeps m) h

  pub ask_then {ℓ κ} :
      {A : Type ℓ} {B : Type κ} (q : User → A) {f : A → K B}
      → ((a : A) → Keeps (f a))
      → Keeps (ask q >>= f)
  ask_then q h = bind-Keeps (ask-Keeps q) h
