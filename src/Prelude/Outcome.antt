-- ===== src/Prelude/Outcome.antt =====
-- What a kernel function returns: a value, a panic with its message, or that the caller has been
-- put to sleep, where the model stops: it calls again when it is woken.
use Prim.Native.String.{String}
use mathlib.Core.Path.{◌≡◌, refl}
use mathlib.Core.Bool.{Bool, true, false}

pub data Result {ℓ} (A : Type ℓ) : Type ℓ where
  ok : A → Result A
  panic : String → Result A
  waits : Result A

infixl 5 ◌>>=◌
abbrev pub ◌>>=◌ {ℓ κ} : {A : Type ℓ} {B : Type κ} → Result A → (A → Result B) → Result B
ok a >>= f = f a
panic e >>= f = panic e
waits >>= f = waits

infixl 5 ◌>>◌
abbrev pub ◌>>◌ {ℓ} : {B : Type ℓ} → Result (Unit {0}) → Result B → Result B
m >> k = m >>= λ _. k

-- `if (!b) panic(e)`.
abbrev pub require : Bool → String → Result (Unit {0})
require true e = ok tt
require false e = panic e

-- A sequence returned, so its first part did.
pub bind_returns {ℓ κ} :
    {A : Type ℓ} {B : Type κ} {b : B} (m : Result A) (next : A → Result B)
    → (m >>= next) ≡ ok b
    → (a : A) × (next a ≡ ok b) × (m ≡ ok a)
bind_returns waits next e = cc
bind_returns (panic message) next e = cc
bind_returns (ok a) next e = (a, e, refl)
