-- ===== src/Strings.antt =====
-- string.c over a byte memory.  Pointers are addresses; a call that C defines does not wrap around.
pub mod Moves
pub mod Names
mod Examples
use zv.Prelude.{
  ℕ, zero, suc, ◌+◌, ◌-◌, ◌*◌, ◌/◌, ◌%◌, ◌≡◌, Bool, true, false, ◌&&◌, not, ◌==◌, ltb,
  if◌then◌else◌, update, Option, none, some, ℤ, pos, sub_ℕ,
}
use zv.Block.{byte_of}

abbrev pub Memory : Type 0
Memory = ℕ → ℕ

-- `rep stosb` (x86.h): `n` bytes from `dst` on.
unfoldable pub stosb : ℕ → ℕ → ℕ → Memory → Memory
stosb dst c zero m = m
stosb dst c (suc n) m = stosb (dst + 1) c n (update m dst (c % 256))

-- One word at `dst`.
unfoldable pub store_word : ℕ → ℕ → Memory → Memory
unfolding byte_of
store_word dst w m =
    update
      (update (update (update m dst (byte_of w 0)) (dst + 1) (byte_of w 1)) (dst + 2) (byte_of w 2))
      (dst + 3) (byte_of w 3)

-- `rep stosl`: `n` words from `dst` on.
unfoldable pub stosl : ℕ → ℕ → ℕ → Memory → Memory
unfolding store_word
stosl dst w zero m = m
stosl dst w (suc n) m = stosl (dst + 4) w n (store_word dst w m)

unfoldable pub memset : ℕ → ℕ → ℕ → Memory → Memory
memset dst c n m =
    let b : ℕ = c % 256 in
    if dst % 4 == 0 && n % 4 == 0
    then stosl dst (b * 16777216 + b * 65536 + b * 256 + b) (n / 4) m
    else stosb dst c n m

unfoldable pub memcmp : ℕ → ℕ → ℕ → Memory → ℤ
memcmp s1 s2 zero m = pos 0
memcmp s1 s2 (suc n) m =
    if not (m s1 == m s2) then sub_ℕ (m s1) (m s2) else memcmp (s1 + 1) (s2 + 1) n m

-- The loop of `memmove` that copies from the end, with `n` bytes left.
unfoldable pub copy_down : ℕ → ℕ → ℕ → Memory → Memory
copy_down dst src zero m = m
copy_down dst src (suc n) m = copy_down dst src n (update m (dst + n) (m (src + n)))

-- The loop that copies from the start.
unfoldable pub copy_up : ℕ → ℕ → ℕ → Memory → Memory
copy_up dst src zero m = m
copy_up dst src (suc n) m = copy_up (dst + 1) (src + 1) n (update m dst (m src))

unfoldable pub memmove : ℕ → ℕ → ℕ → Memory → Memory
memmove dst src n m =
    if ltb src dst && ltb dst (src + n) then copy_down dst src n m else copy_up dst src n m

unfoldable pub strncmp : ℕ → ℕ → ℕ → Memory → ℤ
strncmp p q zero m = pos 0
strncmp p q (suc n) m =
    if not (m p == 0) && m p == m q then strncmp (p + 1) (q + 1) n m else sub_ℕ (m p) (m q)

-- The second loop of `strncpy`.
unfoldable pub pad : ℕ → ℕ → Memory → Memory
pad s zero m = m
pad s (suc n) m = pad (s + 1) n (update m s 0)

-- The first loop: a byte is copied before it is tested.
unfoldable pub strncpy : ℕ → ℕ → ℕ → Memory → Memory
unfolding pad
strncpy s t zero m = m
strncpy s t (suc n) m =
    let more = strncpy (s + 1) (t + 1) n (update m s (m t)) in
    if m t == 0 then pad (s + 1) n (update m s (m t)) else more

-- The loop of `safestrcpy`, after `--n`.
unfoldable pub safe_loop : ℕ → ℕ → ℕ → Memory → Memory
safe_loop s t zero m = update m s 0
safe_loop s t (suc n) m =
    let more = safe_loop (s + 1) (t + 1) n (update m s (m t)) in
    if m t == 0 then update (update m s (m t)) (s + 1) 0 else more

unfoldable pub safestrcpy : ℕ → ℕ → ℕ → Memory → Memory
unfolding safe_loop
safestrcpy s t zero m = m
safestrcpy s t (suc n) m = safe_loop s t n m

-- `strlen`, with fuel; `none` means that no NUL was met.
unfoldable pub strlen : ℕ → ℕ → ℕ → Memory → Option ℕ
strlen zero s n m = none
strlen (suc fuel) s n m =
    let more = strlen fuel s (suc n) m in if m (s + n) == 0 then some n else more
