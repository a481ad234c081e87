-- ===== src/Kalloc.antt =====
-- kalloc.c: the allocator of physical pages.  The list of free pages lies in the pages themselves, so
-- the memory is part of the state: `mem` gives the word at each address that is a multiple of 4.
-- Addresses are 32-bit.  The spinlock makes each call one step; `end` is a symbol of the linker.
pub mod Stack
pub mod Range
mod Examples
use zv.Prelude.{
  ℕ, zero, suc, ◌+◌, ◌-◌, ◌*◌, ◌/◌, ◌%◌, Bool, not, ◌||◌, ◌==◌, ltb, leb, if◌then◌else◌, Result, ok,
  panic, waits, require, ◌>>=◌, ◌>>◌, update,
}

abbrev pub page_size : ℕ
page_size = 4096

-- KERNBASE and PHYSTOP.
abbrev pub kernbase : ℕ
kernbase = 2147483648

abbrev pub phystop : ℕ
phystop = 234881024

-- A word of which each byte is 1.
abbrev pub junk : ℕ
junk = 16843009

pub record Kmem : Type 0 where
  pub freelist : ℕ
  pub mem : ℕ → ℕ

-- v2p, a difference of 32-bit numbers.
abbrev pub v2p : ℕ → ℕ
v2p v = (v + 2147483648) % 4294967296

-- `memset(v, 1, PGSIZE)` for a page.
abbrev pub fill : ℕ → (ℕ → ℕ) → ℕ → ℕ
fill v mem a = if a / page_size == v / page_size then junk else mem a

abbrev pub is_bad : ℕ → ℕ → Bool
is_bad end v = not (v % page_size == 0) || ltb v end || leb phystop (v2p v)

unfoldable pub kfree : ℕ → ℕ → Kmem → Result Kmem
kfree end v s = do
  require (not (is_bad end v)) "kfree"
  ok (record s { freelist = v; mem = update (fill v s.mem) v s.freelist })

unfoldable pub kalloc : Kmem → ℕ × Kmem
kalloc s =
    if s.freelist == 0 then (0, s) else (s.freelist, record s { freelist = s.mem s.freelist })

-- PGROUNDUP.
abbrev pub round_up : ℕ → ℕ
round_up a = (a + 4095) % 4294967296 / page_size * page_size

-- The loop of `freerange` on fuel; it `waits` where the fuel does not suffice.
unfoldable pub freerange_loop : ℕ → ℕ → ℕ → ℕ → Kmem → Result Kmem
unfolding kfree
freerange_loop end zero p vend s = waits
freerange_loop end (suc k) p vend s =
    let rest = λ (t : Kmem). freerange_loop end k ((p + page_size) % 4294967296) vend t in
    if leb ((p + page_size) % 4294967296) vend then kfree end p s >>= rest else ok s

unfoldable pub freerange : ℕ → ℕ → ℕ → Kmem → Result Kmem
unfolding freerange_loop
freerange end vstart vend s = freerange_loop end (suc (vend / page_size)) (round_up vstart) vend s
