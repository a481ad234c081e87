-- ===== src/Syscall/Bounds.antt =====
-- The bounds that `fetchint`, `argptr` and `argstr` (syscall.c) check.
use zv.Prelude.{
  ℕ, zero, suc, ◌+◌, ◌-◌, ◌≤◌, ◌<◌, ◌≡◌, ◌≢◌, ◌↔◌, arith, false, ◌==◌, leb, if◌then◌else◌, none,
  some, ℕ_discrete,
}
use zv.Strings.{Memory}
use zv.Syscall.{User, uint_mod, word_at, fetchint, scan_string, fetchstr, argint, argptr, argstr}

-- KERNBASE: the memory of a process ends below it.
abbrev pub kernbase : ℕ
kernbase = 2147483648

-- `fetchint` returns the word at an address exactly when its four bytes are memory of the process.
pub fetchint-some :
    (u : User) (addr v : ℕ)
    → u.sz ≤ kernbase
    → fetchint u addr ≡ some v ↔ (addr + 4 ≤ u.sz) × (v ≡ word_at u.memory addr)
unfolding fetchint
fetchint-some u addr v h = ground arith

-- For a size that is not negative as an int, `argptr` returns a pointer exactly when it is the argument and the bytes from it on, as many as the size says, are memory of the process, of which there is one more than none behind the pointer.
pub argptr-some :
    (u : User) (n size i : ℕ)
    → u.sz ≤ kernbase
    → size < kernbase
    → argptr u n size ≡ some i ↔ (argint u n ≡ some i) × (i < u.sz) × (i + size ≤ u.sz)
unfolding argptr
argptr-some u n size i h h' = ground arith

-- A negative size, -k, is accepted with every argument from k on that points into the memory of the process.
pub argptr-negative :
    (u : User) (n k i : ℕ)
    → u.sz ≤ kernbase
    → 0 < k
    → k ≤ i
    → i < u.sz
    → argint u n ≡ some i
    → argptr u n (uint_mod - k) ≡ some i
unfolding argptr
argptr-negative u n k i h pos le lt e = ground arith

-- A string of `len` bytes, and its NUL, from `addr` on.
pub record IsString (m : Memory) (addr len : ℕ) : Type 0 where
  pub chars : (j : ℕ) → j < len → m (addr + j) ≢ 0
  pub nul : m (addr + len) ≡ 0

scan_string-some :
    (k : ℕ) (m : Memory) (a c len : ℕ)
    → scan_string k m (a + c) c ≡ some len
    → ((j : ℕ) → j < c → m (a + j) ≢ 0)
    → IsString m a len × (len < c + k)
unfolding scan_string
scan_string-some zero m a c len e before = ground (arith, e)
scan_string-some (suc k) m a c len e before = elim (ℕ_discrete (m (a + c)) 0) [
  | yes nul ↦
      let at : c ≡ len = ground (arith, nul, e) in
      (
        record { chars = λ j h. before j (omega (arith, at)); nul = rw (← at) nul },
        omega (arith, at),
      )
  | no more ↦
      let next : a + (c + 1) ≡ a + c + 1 = omega arith in
      let on : scan_string k m (a + (c + 1)) (c + 1) ≡ some len =
        rw next (ground (arith, more, e)) in
      let (s, lt) =
        scan_string-some k m a (c + 1) len on
          (λ j h. elim (ℕ_discrete j c) [ yes q ↦ rw q more | no ne ↦ before j (omega arith) ]) in
      (s, omega arith)
]

scan_string_meets :
    (k : ℕ) (m : Memory) (a c len : ℕ)
    → IsString m a len
    → c ≤ len
    → len < c + k
    → scan_string k m (a + c) c ≡ some len
unfolding scan_string
scan_string_meets zero m a c len s le lt = ground arith
scan_string_meets (suc k) m a c len s le lt = elim (ℕ_discrete c len) [
  | yes q ↦ ground (arith, s.nul, q)
  | no ne ↦
      let next : a + (c + 1) ≡ a + c + 1 = omega arith in
      let there : (m (a + c) == 0) ≡ false = ground (arith, s.chars c (omega arith)) in
      let on : scan_string k m (a + (c + 1)) (c + 1) ≡ some len =
        scan_string_meets k m a (c + 1) len s (omega arith) (omega arith) in
      rw (there, ← next) on
]

fetchstr-some :
    (u : User) (addr len : ℕ)
    → fetchstr u addr ≡ some len ↔ IsString u.memory addr len × (addr + len < u.sz)
unfolding fetchstr
fetchstr-some u addr len = (forward, backward)
  where
    forward :
        (if leb u.sz addr then none else scan_string (u.sz - addr) u.memory addr 0) ≡ some len
        → IsString u.memory addr len × (addr + len < u.sz)
    forward e =
        let found : scan_string (u.sz - addr) u.memory (addr + 0) 0 ≡ some len =
          ground (arith, e) in
        let (s, lt) =
          scan_string-some (u.sz - addr) u.memory addr 0 len found (λ j h. omega arith) in
        (s, ground (arith, e))

    backward :
        IsString u.memory addr len × (addr + len < u.sz)
        → (if leb u.sz addr then none else scan_string (u.sz - addr) u.memory addr 0) ≡ some len
    backward (s, lt) =
        let found : scan_string (u.sz - addr) u.memory (addr + 0) 0 ≡ some len =
          scan_string_meets (u.sz - addr) u.memory addr 0 len s (omega arith) (omega arith) in
        ground (arith, found)

argstr_ok :
    (u : User) (n addr len : ℕ)
    → argstr u n ≡ some (addr, len) ↔ (argint u n ≡ some addr) × (fetchstr u addr ≡ some len)
unfolding argstr
argstr_ok u n addr len = ground arith

-- `argstr` returns an address and a length exactly when the address is the argument and a string of that length lies there, its NUL included, inside the memory of the process.
pub argstr-some :
    (u : User) (n addr len : ℕ)
    → argstr u n ≡ some (addr, len)
      ↔ (argint u n ≡ some addr) × IsString u.memory addr len × (addr + len < u.sz)
argstr-some u n addr len = (
  λ e.
      let (at, found) = (argstr_ok u n addr len).0 e in
      let (s, lt) = (fetchstr-some u addr len).0 found in (at, s, lt),
  λ (at, s, lt). (argstr_ok u n addr len).1 (at, (fetchstr-some u addr len).1 (s, lt)),
)
