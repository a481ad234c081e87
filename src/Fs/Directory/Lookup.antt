-- ===== src/Fs/Directory/Lookup.antt =====
-- `dirlookup` (fs.c) finds the first entry of a name.
use zv.Prelude.{
  ℕ, zero, suc, ◌+◌, ◌-◌, ◌/◌, ◌%◌, ◌≤◌, ◌<◌, ◌≡◌, ◌≢◌, ◌↔◌, ℤ, pos, negsuc, refl, sym, ap, ◌∙◌,
  fun_ext, inl, inr, arith, Bool, true, false, ◌&&◌, not, ◌==◌, ltb, if◌then◌else◌, String, Option,
  none, some, get_elem?, min, ok, Bool-cases, dec_lt, ℕ_discrete, subst,
}
use zv.Block.{Block, block_size}
use zv.Strings.{Memory}
use zv.Strings.Names.{text, strncmp-zero}
use zv.Fs.Path.{dirsiz}
use zv.Fs.{Inode, Dinode, Fs, M, pure, ◌>>=◌}
use zv.Fs.Writes.{view}
use zv.Fs.Content.{t_dev}
use zv.Fs.Content.Reading.{Mapped, file_byte, load_cached, readi_lem}
use zv.Fs.Icache.{iget}
use zv.Fs.Writing.{Devsw}
use zv.Fs.Directory.{
  t_dir, dirent_size, dirent_inum, dirent_name, two_names, namecmp, is_zero, read_dirent,
  lookup_loop, dirlookup,
}

-- The entry at `off`, of 16 bytes.
abbrev pub entry : (ℕ → Block) → Dinode → ℕ → ℕ → ℕ
entry f d off j = if ltb j dirent_size then file_byte f d (off + j) else 0

-- An entry is in use, and its name is the same up to a NUL or to DIRSIZ bytes.
abbrev pub Named : (ℕ → ℕ) → (ℕ → ℕ) → Type 0
Named name de = (dirent_inum de ≢ 0) × (text dirsiz 0 name ≡ text dirsiz 0 (dirent_name de))

text_ext :
    (n p q : ℕ) (m m' : Memory)
    → ((i : ℕ) → i < n → m (p + i) ≡ m' (q + i))
    → text n p m ≡ text n q m'
unfolding text
text_ext zero p q m m' h = refl
text_ext (suc n) p q m m' h =
    let rest = text_ext n (p + 1) (q + 1) m m' (λ i lt. next i (h (suc i) (omega arith))) in
    let a : p + 0 ≡ p = omega arith in
    let b : q + 0 ≡ q = omega arith in
    let here : m p ≡ m' q = ap m (sym a) ∙ h 0 (omega arith) ∙ ap m' b in rw (here, rest) refl
  where
    next : (i : ℕ) → m (p + suc i) ≡ m' (q + suc i) → m (p + 1 + i) ≡ m' (q + 1 + i)
    next i e =
        let a : p + 1 + i ≡ p + suc i = omega arith in
        let b : q + 1 + i ≡ q + suc i = omega arith in ap m a ∙ e ∙ ap m' (sym b)

is_zero_iff : (r : ℤ) → is_zero r ≡ true ↔ r ≡ pos 0
is_zero_iff (pos n) = ground arith
is_zero_iff (negsuc n) = ground arith

namecmp-zero : (s t : ℕ → ℕ) → is_zero (namecmp s t) ≡ true ↔ text dirsiz 0 s ≡ text dirsiz 0 t
unfolding namecmp
namecmp-zero s t =
    let a : text dirsiz 0 (two_names s t) ≡ text dirsiz 0 s =
      text_ext dirsiz 0 0 (two_names s t) s (λ i lt. ground (arith, lt)) in
    let b : text dirsiz dirsiz (two_names s t) ≡ text dirsiz 0 t =
      text_ext dirsiz dirsiz 0 (two_names s t) t
        (λ i lt. let e : 14 + i - 14 ≡ 0 + i = omega arith in ground (arith, ap t e)) in
    let same = strncmp-zero 0 dirsiz dirsiz (two_names s t) in
    let zero = is_zero_iff (namecmp s t) in
    (λ e. sym a ∙ same.0 (zero.0 e) ∙ b, λ e. zero.1 (same.1 (a ∙ e ∙ sym b)))

-- The test of `dirlookup`.
abbrev names : (ℕ → ℕ) → (ℕ → ℕ) → Bool
names name de = not (dirent_inum de == 0) && is_zero (namecmp name (dirent_name de))

names-true : (name de : ℕ → ℕ) → names name de ≡ true → Named name de
names-true name de e =
    (ground (arith, e), (namecmp-zero name (dirent_name de)).0 (ground (arith, e)))

names-false : (name de : ℕ → ℕ) → names name de ≡ false → ¬ (Named name de)
names-false name de e (used, same) =
    let equal = (namecmp-zero name (dirent_name de)).1 same in ground (arith, e, used, equal)

-- A directory in memory: a whole number of entries, of which no block is missing.
pub record Listing (s : Fs) (dp : ℕ) (p : Inode) : Type 0 where
  pub cached : get_elem? s.icache dp ≡ some p
  pub dir : p.type ≡ t_dir
  pub whole : p.size % dirent_size ≡ 0
  pub fits : p.size < 4294967296
  pub mapped : (x : ℕ) → x < p.size → Mapped (view s) p.copy (x / block_size)

-- What the search comes to, in entries from `off` on.
pub data Search (s : Fs) (p : Inode) (name : ℕ → ℕ) (off : ℕ) : Option (ℕ × ℕ) → Type 0 where
  absent :
      ((x : ℕ)
        → off ≤ x
        → x < p.size
        → x % dirent_size ≡ 0
        → ¬ (Named name (entry (view s) p.copy x)))
      → Search s p name off none
  first :
      (at : ℕ)
      → off ≤ at
      → at < p.size
      → at % dirent_size ≡ 0
      → Named name (entry (view s) p.copy at)
      → ((x : ℕ)
          → off ≤ x
          → x < at
          → x % dirent_size ≡ 0
          → ¬ (Named name (entry (view s) p.copy x)))
      → Search s p name off (some (at, dirent_inum (entry (view s) p.copy at)))

-- What `dirlookup` makes of the entry.
abbrev pub finish : Option (ℕ × ℕ) → M (Option (ℕ × ℕ))
unfolding iget
finish r = elim r [ none ↦ pure none | some (off, inum) ↦ do ip ← iget inum; pure (some (ip, off)) ]

module _ (s : Fs) (dp : ℕ) (p : Inode) (g : Listing s dp p) (dev : Devsw) where
  read_dirent_lem :
      (text : String) (off : ℕ)
      → off < p.size
      → off % dirent_size ≡ 0
      → read_dirent text dev dp off s ≡ ok (entry (view s) p.copy off, s)
  unfolding read_dirent
  read_dirent_lem text off lt aligned =
      let file : p.type ≢ t_dev = ground (arith, g.dir) in
      let w = g.whole in
      let fit = g.fits in
      let (out, read, bytes) =
        readi_lem s dp p g.cached dev.reads (λ _. 0) off dirent_size file (omega arith)
          (omega arith) (λ x h h'. g.mapped x h') in
      let all : min dirent_size (p.size - off) ≡ dirent_size = omega arith in
      let same : out ≡ entry (view s) p.copy off = fun_ext (λ j. bytes j ∙ rw all refl) in
      rw (◌>>=◌, read, all, same) refl

  -- An entry that is passed over.
  Search-next :
      (name : ℕ → ℕ) (off : ℕ) (r : Option (ℕ × ℕ))
      → off % dirent_size ≡ 0
      → ¬ (Named name (entry (view s) p.copy off))
      → Search s p name (off + dirent_size) r
      → Search s p name off r
  Search-next name off r aligned other (absent none_later) = absent (λ x h h' h''.
      elim (ℕ_discrete x off) [
        | yes e ↦ λ q. other (subst (λ y. Named name (entry (view s) p.copy y)) e q)
        | no ne ↦ none_later x (omega arith) h' h''
      ])
  Search-next name off r aligned other (first at h h' h'' named earlier) =
      first at (omega arith) h' h'' named (λ x l l' l''. elim (ℕ_discrete x off) [
        | yes e ↦ λ q. other (subst (λ y. Named name (entry (view s) p.copy y)) e q)
        | no ne ↦ earlier x (omega arith) l' l''
      ])

  lookup_loop-Search :
      (name : ℕ → ℕ) (fuel off : ℕ)
      → p.size - off ≤ fuel
      → off % dirent_size ≡ 0
      → (r : Option (ℕ × ℕ)) × (lookup_loop fuel dev dp name off p.size s ≡ ok (r, s))
        × Search s p name off r
  unfolding lookup_loop
  lookup_loop-Search name zero off enough aligned =
      (none, refl, absent (λ x h h' h'' q. omega arith))
  lookup_loop-Search name (suc fuel) off enough aligned = elim (dec_lt off p.size) [
    | no past ↦
        let over : ltb off p.size ≡ false = ground (arith, past) in
        (none, rw over refl, absent (λ x h h' h'' q. omega arith))
    | yes more ↦
        let go_on : ltb off p.size ≡ true = ground (arith, more) in
        let e = read_dirent_lem "dirlink read" off more aligned in
        elim (Bool-cases (names name (entry (view s) p.copy off))) [
          | inl yes_named ↦ (
            some (off, dirent_inum (entry (view s) p.copy off)),
            rw (go_on, ◌>>=◌, e, yes_named) refl,
            first off (omega arith) more aligned
                (names-true name (entry (view s) p.copy off) yes_named)
                (λ x h h' h'' q. omega arith),
          )
          | inr not_named ↦
              let (r, done, found) =
                lookup_loop-Search name fuel (off + dirent_size) (omega arith) (omega arith) in
              (
                r,
                rw (go_on, ◌>>=◌, e, not_named) done,
                Search-next name off r aligned
                    (names-false name (entry (view s) p.copy off) not_named) found,
              )
        ]
  ]

  -- In a directory in memory, of whose blocks none is missing, `dirlookup` finds the first entry that is in use and has the name, up to a NUL or to DIRSIZ bytes, and returns its offset and the inode of its number from `iget`; it returns none, and changes nothing, exactly where no entry in use has the name.
  pub dirlookup-Search :
      (name : ℕ → ℕ)
      → (r : Option (ℕ × ℕ)) × Search s p name 0 r × (dirlookup dev dp name s ≡ finish r s)
  unfolding dirlookup
  dirlookup-Search name =
      let (r, done, found) = lookup_loop-Search name p.size 0 (omega arith) refl in
      let isdir : (p.type == t_dir) ≡ true = ground (arith, g.dir) in
      (r, found, rw (◌>>=◌, load_cached s dp p g.cached, isdir, done) refl)
