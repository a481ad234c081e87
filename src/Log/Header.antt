-- ===== src/Log/Header.antt =====
-- What `write_head` stores in the header block (log.c) is what `read_head` finds there.
use zv.Prelude.{ℕ, zero, suc, ◌+◌, ◌≤◌, ◌<◌, ◌≡◌, refl, ◌∙◌, arith, ℕ_discrete}
use zv.Block.{Block, get_word, set_word, get_word-set_word_self, get_word-set_word_ne}
use zv.Log.{Log, read_sectors, write_sectors}

-- The header block that `write_head` makes of the old block `b`.
abbrev pub header : Log → Block → Block
header l b = write_sectors l.n 0 l.sector (set_word b 0 l.n)

get_word-write_sectors_before :
    (k i j : ℕ) (sec : ℕ → ℕ) (b : Block)
    → j ≤ i
    → get_word (write_sectors k i sec b) j ≡ get_word b j
unfolding write_sectors
get_word-write_sectors_before zero i j sec b h = refl
get_word-write_sectors_before (suc k) i j sec b h =
    get_word-write_sectors_before k (suc i) j sec _ (omega arith)
    ∙ get_word-set_word_ne b (i + 1) j (sec i) (omega arith)

get_word-write_sectors :
    (k i j : ℕ) (sec : ℕ → ℕ) (b : Block)
    → i ≤ j
    → j < i + k
    → sec j < 4294967296
    → get_word (write_sectors k i sec b) (j + 1) ≡ sec j
unfolding write_sectors
get_word-write_sectors zero i j sec b h lt w = absurd (omega arith)
get_word-write_sectors (suc k) i j sec b h lt w = elim (ℕ_discrete i j) [
  | yes e ↦
      get_word-write_sectors_before k (suc i) (j + 1) sec _ (omega arith)
      ∙ rw e (get_word-set_word_self b (j + 1) (sec j) w)
  | no ne ↦ get_word-write_sectors k (suc i) j sec _ (omega arith) (omega arith) w
]

read_sectors_before :
    (k i j : ℕ) (b : Block) (sec : ℕ → ℕ) → j < i → read_sectors k i b sec j ≡ sec j
unfolding read_sectors
read_sectors_before zero i j b sec h = refl
read_sectors_before (suc k) i j b sec h =
    read_sectors_before k (suc i) j b _ (omega arith) ∙ ground arith

pub read_sectors_lem :
    (k i j : ℕ) (b : Block) (sec : ℕ → ℕ)
    → i ≤ j
    → j < i + k
    → read_sectors k i b sec j ≡ get_word b (j + 1)
unfolding read_sectors
read_sectors_lem zero i j b sec h lt = absurd (omega arith)
read_sectors_lem (suc k) i j b sec h lt = elim (ℕ_discrete i j) [
  | yes e ↦ read_sectors_before k (suc i) j b _ (omega arith) ∙ rw e (ground arith)
  | no ne ↦ read_sectors_lem k (suc i) j b _ (omega arith) (omega arith)
]

pub header_n : (l : Log) (b : Block) → l.n < 4294967296 → get_word (header l b) 0 ≡ l.n
header_n l b h =
    get_word-write_sectors_before l.n 0 0 l.sector _ (omega arith)
    ∙ get_word-set_word_self b 0 l.n h

pub header_sector :
    (l : Log) (b : Block) (j : ℕ)
    → j < l.n
    → l.sector j < 4294967296
    → get_word (header l b) (j + 1) ≡ l.sector j
header_sector l b j lt w = get_word-write_sectors l.n 0 j l.sector _ (omega arith) (omega arith) w
