-- ===== src/Syscall.antt =====
-- syscall.c: what the kernel fetches from the memory of the process, and the arguments of a call.
-- Addresses are 32-bit numbers, and an `int` is its 32-bit pattern; `none` stands for -1.
pub mod Bounds
mod Examples
use zv.Prelude.{
  ℕ, zero, suc, ◌+◌, ◌-◌, ◌*◌, ◌%◌, Bool, ◌||◌, ◌==◌, ltb, leb, if◌then◌else◌, Option, none, some,
}
use zv.Strings.{Memory}

-- 2 ^ 32.
abbrev pub uint_mod : ℕ
uint_mod = 4294967296

-- `proc->sz`, the memory of the process, and `proc->tf->esp`.
pub record User : Type 0 where
  pub sz : ℕ
  pub memory : Memory
  pub esp : ℕ

-- The word at an address, least byte first.
abbrev pub word_at : Memory → ℕ → ℕ
word_at m a = m a + 256 * m (a + 1) + 65536 * m (a + 2) + 16777216 * m (a + 3)

unfoldable pub fetchint : User → ℕ → Option ℕ
fetchint u addr =
    if leb u.sz addr || ltb u.sz ((addr + 4) % uint_mod) then none else some (word_at u.memory addr)

-- The loop of `fetchstr`, with `k` bytes left before `proc->sz`: the length of the string.
unfoldable pub scan_string : ℕ → Memory → ℕ → ℕ → Option ℕ
scan_string zero m s n = none
scan_string (suc k) m s n =
    let more = scan_string k m (s + 1) (n + 1) in if m s == 0 then some n else more

-- The pointer is the address itself.
unfoldable pub fetchstr : User → ℕ → Option ℕ
unfolding scan_string
fetchstr u addr = if leb u.sz addr then none else scan_string (u.sz - addr) u.memory addr 0

unfoldable pub argint : User → ℕ → Option ℕ
unfolding fetchint
argint u n = fetchint u ((u.esp + 4 + 4 * n) % uint_mod)

unfoldable pub argptr : User → ℕ → ℕ → Option ℕ
unfolding argint
argptr u n size = elim (argint u n) [
  | none ↦ none
  | some i ↦ if leb u.sz i || ltb u.sz ((i + size) % uint_mod) then none else some i
]

-- The address and the length of the string.
unfoldable pub argstr : User → ℕ → Option (ℕ × ℕ)
unfolding argint fetchstr
argstr u n = elim (argint u n) [
  | none ↦ none
  | some addr ↦ elim (fetchstr u addr) [ none ↦ none | some len ↦ some (addr, len) ]
]
