-- ===== src/Fs/Path.antt =====
-- fs.c: `skipelem`, over the byte memory of string.c.
pub mod Element
use zv.Prelude.{
  ℕ, zero, suc, ◌+◌, ◌-◌, Bool, true, false, ◌&&◌, not, ◌==◌, ltb, if◌then◌else◌, update, Option,
  none, some,
}
use zv.Strings.{Memory, memmove}

-- DIRSIZ.
abbrev pub dirsiz : ℕ
dirsiz = 14

-- The character '/'.
abbrev pub slash : ℕ
slash = 47

abbrev pub is_slash : ℕ → Bool
is_slash c = c == slash

abbrev pub is_name : ℕ → Bool
is_name c = not (c == slash) && not (c == 0)

-- `while (test(*path)) path++`, with fuel.
unfoldable pub skip : (ℕ → Bool) → ℕ → ℕ → Memory → ℕ
skip test zero path m = path
skip test (suc fuel) path m =
    let more = skip test fuel (path + 1) m in if test (m path) then more else path

-- The element from `s` to `path` goes to `name`.
unfoldable pub copy_name : ℕ → ℕ → ℕ → Memory → Memory
unfolding memmove
copy_name name s len m =
    if ltb len dirsiz then update (memmove name s len m) (name + len) 0 else memmove name s dirsiz m

-- Each loop has `fuel`.  The pointer is `none` where C returns 0.
unfoldable pub skipelem : ℕ → ℕ → ℕ → Memory → Option ℕ × Memory
unfolding skip copy_name
skipelem fuel path name m =
    let s : ℕ = skip is_slash fuel path m in
    let e : ℕ = skip is_name fuel s m in
    let named : Memory = copy_name name s (e - s) m in
    if m s == 0 then (none, m) else (some (skip is_slash fuel e named), named)
