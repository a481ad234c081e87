-- ===== src/Ulib.antt =====
-- ulib.c and printf.c, for user programs.  A C string is the list of its bytes before the NUL, but for
-- `strcpy` and `memmove`, which write into a memory; the output is the list of the bytes written.
pub mod Numbers
pub mod Lines
mod Examples
use zv.Prelude.{
  ℕ, zero, suc, ◌+◌, ◌-◌, ◌*◌, ◌/◌, ◌%◌, Bool, true, false, ◌&&◌, ◌||◌, not, ◌==◌, ltb, leb,
  if◌then◌else◌, update, List, [], ◌∷◌, ◌++◌, Option, none, some, ℤ, pos, negsuc, sub_ℕ, to_int,
}
use zv.Strings.{Memory, copy_up}

-- `strcpy`, with fuel; `none` means that no NUL was met.
unfoldable pub strcpy : ℕ → ℕ → ℕ → Memory → Option Memory
strcpy zero s t m = none
strcpy (suc fuel) s t m =
    let m' = update m s (m t) in
    let more = strcpy fuel (s + 1) (t + 1) m' in if m t == 0 then some m' else more

-- The first byte, or the NUL.
abbrev pub head_of : List ℕ → ℕ
head_of [] = 0
head_of (c ∷ cs) = c

unfoldable pub strcmp : List ℕ → List ℕ → ℤ
strcmp [] q = sub_ℕ 0 (head_of q)
strcmp (c ∷ p) [] = sub_ℕ c 0
strcmp (c ∷ p) (d ∷ q) = let more = strcmp p q in if c == d then more else sub_ℕ c d

unfoldable pub strlen : List ℕ → ℕ
strlen [] = 0
strlen (c ∷ cs) = strlen cs + 1

-- The index of the byte.
unfoldable pub strchr : List ℕ → ℕ → Option ℕ
strchr [] c = none
strchr (d ∷ ds) c =
    let more = strchr ds c in
    if d == c then some 0 else elim more [ some i ↦ some (i + 1) | none ↦ none ]

-- The loop of `gets` with room for `k` bytes, on the bytes that are there to read: the line and the rest.
unfoldable pub gets_loop : ℕ → List ℕ → List ℕ × List ℕ
gets_loop zero input = ([], input)
gets_loop (suc k) [] = ([], [])
gets_loop (suc k) (c ∷ input) =
    let more = gets_loop k input in
    if c == b'\n' || c == b'\r' then (c ∷ [], input) else (c ∷ more.0, more.1)

unfoldable pub gets : ℕ → List ℕ → List ℕ × List ℕ
unfolding gets_loop
gets max input = gets_loop (max - 1) input

-- The loop of `atoi`; `none` where `n*10 + *s` overflows an int, which C leaves undefined.
unfoldable pub atoi_loop : ℕ → List ℕ → Option ℕ
atoi_loop n [] = some n
atoi_loop n (c ∷ cs) =
    let more = atoi_loop (n * 10 + c - b'0') cs in
    if leb b'0' c && leb c b'9'
    then (if leb 2147483648 (n * 10 + c) then none else more)
    else some n

unfoldable pub atoi : List ℕ → Option ℕ
unfolding atoi_loop
atoi s = atoi_loop 0 s

-- `memmove` copies upwards, whether the blocks overlap or not.
unfoldable pub memmove : ℕ → ℕ → ℕ → Memory → Memory
unfolding copy_up
memmove vdst vsrc n m = copy_up vdst vsrc n m

-- An entry of `digits`.
abbrev pub digit : ℕ → ℕ
digit d = if ltb d 10 then b'0' + d else b'A' + (d - 10)

-- The first loop of `printint` on fuel for the digits; the buffer is written out from its end.
unfoldable pub digits_loop : ℕ → ℕ → ℕ → List ℕ → List ℕ
digits_loop zero x base buf = buf
digits_loop (suc fuel) x base buf =
    let buf' = digit (x % base) ∷ buf in
    let more = digits_loop fuel (x / base) base buf' in if x / base == 0 then buf' else more

-- The buffer of `printint` has 16 bytes.
unfoldable pub printint : ℕ → ℕ → Bool → List ℕ
unfolding digits_loop
printint xx base sgn =
    if sgn && leb 2147483648 xx
    then b'-' ∷ digits_loop 16 (4294967296 - xx) base []
    else digits_loop 16 xx base []

-- The text at a pointer; a null pointer is printed as "(null)".
abbrev pub text_at : (ℕ → List ℕ) → ℕ → List ℕ
text_at strings p = if p == 0 then b'(' ∷ b'n' ∷ b'u' ∷ b'l' ∷ b'l' ∷ b')' ∷ [] else strings p

-- The next argument, and those after it.
abbrev pub next_arg : List ℕ → ℕ × List ℕ
next_arg [] = (0, [])
next_arg (a ∷ args) = (a, args)

-- What a `%` and the byte after it print, and the arguments that are left.
unfoldable pub convert : (ℕ → List ℕ) → ℕ → List ℕ → List ℕ × List ℕ
unfolding printint
convert strings c args =
    let a = next_arg args in
    if c == b'd'
    then (printint a.0 10 true, a.1)
    else if c == b'x' || c == b'p'
    then (printint a.0 16 false, a.1)
    else if c == b's'
    then (text_at strings a.0, a.1)
    else if c == b'c'
    then (a.0 % 256 ∷ [], a.1)
    else if c == b'%'
    then (c ∷ [], args)
    else (b'%' ∷ c ∷ [], args)

-- `printf`; a `%` at the end of the format prints nothing.
unfoldable pub printf : (ℕ → List ℕ) → List ℕ → List ℕ → List ℕ
unfolding convert
printf strings [] args = []
printf strings (c ∷ []) args = if c == b'%' then [] else c ∷ []
printf strings (c ∷ d ∷ fmt) args =
    let r = convert strings d args in
    let special = r.0 ++ printf strings fmt r.1 in
    let plain = c ∷ printf strings (d ∷ fmt) args in
    elim (c == b'%') [ true ↦ special | false ↦ plain ]
