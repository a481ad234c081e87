-- ===== src/Fs/Directory.antt =====
-- fs.c: directories, `namecmp`, `dirlookup` and `dirlink`.
pub mod Lookup
use zv.Prelude.{
  ℕ, zero, suc, ◌+◌, ◌-◌, ◌*◌, ◌/◌, ◌%◌, Bool, true, false, ◌&&◌, ◌||◌, not, ◌==◌, ltb,
  if◌then◌else◌, Option, none, some, String, ok, panic, ℤ, pos, negsuc,
}
use zv.Strings.{Memory, strncmp, strncpy}
use zv.Fs.{Inode, Dinode, Fs, M, pure, fail, ◌>>=◌, ◌>>◌}
use zv.Fs.Content.{load, readi}
use zv.Fs.Icache.{iget}
use zv.Fs.Path.{dirsiz}
use zv.Fs.Free.{iput}
use zv.Fs.Writing.{Devsw, writei}

-- T_DIR (stat.h) and sizeof(struct dirent).
abbrev pub t_dir : ℕ
t_dir = 1

abbrev pub dirent_size : ℕ
dirent_size = 16

-- The fields of a `struct dirent` in its 16 bytes.
abbrev pub dirent_inum : (ℕ → ℕ) → ℕ
dirent_inum de = de 0 + 256 * de 1

abbrev pub dirent_name : (ℕ → ℕ) → ℕ → ℕ
dirent_name de i = de (2 + i)

-- Two names of DIRSIZ bytes, one behind the other, in a memory of their own.
abbrev pub two_names : (ℕ → ℕ) → (ℕ → ℕ) → Memory
two_names s t x = if ltb x dirsiz then s x else t (x - dirsiz)

unfoldable pub namecmp : (ℕ → ℕ) → (ℕ → ℕ) → ℤ
unfolding strncmp
namecmp s t = strncmp 0 dirsiz dirsiz (two_names s t)

abbrev pub is_zero : ℤ → Bool
is_zero (pos n) = n == 0
is_zero (negsuc n) = false

-- `readi(dp, &de, off, sizeof(de)) != sizeof(de)` panics with the given text.
unfoldable pub read_dirent : String → Devsw → ℕ → ℕ → M (ℕ → ℕ)
unfolding readi
read_dirent text dev dp off = do
  r ← readi dev.reads dp (λ _. 0) off dirent_size
  elim r [ none ↦ fail text | some (n, de) ↦ if n == dirent_size then pure de else fail text ]

-- The loop of `dirlookup` from `off` on, with fuel: the offset and the inode number of the entry.
unfoldable pub lookup_loop : ℕ → Devsw → ℕ → (ℕ → ℕ) → ℕ → ℕ → M (Option (ℕ × ℕ))
unfolding read_dirent namecmp
lookup_loop zero dev dp name off size = pure none
lookup_loop (suc fuel) dev dp name off size =
    let more = lookup_loop fuel dev dp name (off + dirent_size) size in
    if ltb off size
    then (do
      de ← read_dirent "dirlink read" dev dp off
      if not (dirent_inum de == 0) && is_zero (namecmp name (dirent_name de))
          then pure (some (off, dirent_inum de))
          else more)
    else pure none

-- The inode and the offset of its entry; there is a round for each byte of the directory at most.
unfoldable pub dirlookup : Devsw → ℕ → (ℕ → ℕ) → M (Option (ℕ × ℕ))
unfolding load lookup_loop iget
dirlookup dev dp name = do
  p ← load dp
  if not (p.type == t_dir) then fail "dirlookup not DIR" else (do
    found ← lookup_loop p.size dev dp name 0 p.size
    elim found [ none ↦ pure none | some (off, inum) ↦ do ip ← iget inum; pure (some (ip, off)) ])

-- The loop of `dirlink`: the offset of the first free entry, or of the end.
unfoldable pub free_entry_loop : ℕ → Devsw → ℕ → ℕ → ℕ → M ℕ
unfolding read_dirent
free_entry_loop zero dev dp off size = pure off
free_entry_loop (suc fuel) dev dp off size =
    let more = free_entry_loop fuel dev dp (off + dirent_size) size in
    if ltb off size
    then (do
      de ← read_dirent "dirlink read" dev dp off
      if dirent_inum de == 0 then pure off else more)
    else pure off

-- The entry that is written: `strncpy(de.name, name, DIRSIZ)` and the number, a ushort.  The name to
-- copy lies behind the entry in this memory.
unfoldable pub new_dirent : (ℕ → ℕ) → ℕ → ℕ → ℕ
unfolding strncpy
new_dirent name inum x =
    if x == 0
    then inum % 256
    else if x == 1
    then inum / 256 % 256
    else strncpy 2 dirent_size dirsiz (λ y. if ltb y dirent_size then 0 else name (y - dirent_size))
        x

unfoldable pub dirlink : ℕ → Devsw → ℕ → (ℕ → ℕ) → ℕ → M ℤ
unfolding dirlookup iput load free_entry_loop new_dirent writei
dirlink fuel dev dp name inum = do
  there ← dirlookup dev dp name
  elim there [
    | some (ip, off) ↦ do iput dev.reads ip; pure (negsuc 0)
    | none ↦ do
      p ← load dp
      off ← free_entry_loop p.size dev dp 0 p.size
      w ← writei fuel dev dp (new_dirent name inum) off dirent_size
      elim w [
        | none ↦ fail "dirlink"
        | some n ↦ if n == dirent_size then pure (pos 0) else fail "dirlink"
      ]
  ]

-- `isdirempty` (sysfile.c): the loop from the third entry on.
unfoldable pub empty_loop : ℕ → Devsw → ℕ → ℕ → ℕ → M Bool
unfolding read_dirent
empty_loop zero dev dp off size = pure true
empty_loop (suc fuel) dev dp off size =
    let more = empty_loop fuel dev dp (off + dirent_size) size in
    if ltb off size
    then (do
      de ← read_dirent "isdirempty: readi" dev dp off
      if dirent_inum de == 0 then more else pure false)
    else pure true

unfoldable pub isdirempty : Devsw → ℕ → M Bool
unfolding load empty_loop
isdirempty dev dp = do p ← load dp; empty_loop p.size dev dp (2 * dirent_size) p.size
