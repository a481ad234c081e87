-- ===== src/Fs.antt =====
-- fs.c: the state of the file system and the access to blocks.  There is one device, ROOTDEV.  The
-- code runs for one process; where it would sleep on an inode that another holds, it `waits`.
pub mod Bits
pub mod Bitmap
pub mod Writes
pub mod Image
pub mod Content
pub mod Icache
pub mod Ilock
pub mod Path
pub mod Trans
pub mod Update
pub mod Free
pub mod Writing
pub mod Rescue
pub mod Directory
pub mod Namex
mod Examples
use zv.Prelude.{
  ℕ, zero, suc, ◌+◌, ◌-◌, ◌*◌, ◌/◌, ◌%◌, ◌≡◌, refl, sym, ◌∙◌, Bool, true, false, ◌==◌,
  if◌then◌else◌, update, List, Option, none, some, String, Result, ok, panic, waits,
}
use zv.Block.{Block, block_size, get_word}
use zv.Disk.{Store, bread}
use zv.Log.{Log}
use zv.Log.Transaction

abbrev pub ndirect : ℕ
ndirect = 10

-- BSIZE / sizeof(uint).
abbrev pub nindirect : ℕ
nindirect = 128

abbrev pub max_file : ℕ
max_file = ndirect + nindirect

-- Inodes per block: a `struct dinode` has 64 bytes.
abbrev pub ipb : ℕ
ipb = 8

-- Bitmap bits per block.
abbrev pub bpb : ℕ
bpb = 4096

-- IBLOCK and BBLOCK.
abbrev pub inode_block : ℕ → ℕ
inode_block i = i / ipb + 2

abbrev pub bitmap_block : ℕ → ℕ → ℕ
bitmap_block b ninodes = b / bpb + ninodes / ipb + 3

-- The fields of a `struct inode` that a `struct dinode` has too.  A short is its 16-bit pattern.
pub record Dinode : Type 0 where
  pub type : ℕ
  pub major : ℕ
  pub minor : ℕ
  pub nlink : ℕ
  pub size : ℕ
  pub addrs : ℕ → ℕ
  pub child1 : ℕ
  pub child2 : ℕ
  pub checksum : ℕ

-- `struct inode`: an entry of the inode cache.
pub record Inode : Type 0 where
  pub inum : ℕ
  pub ref : ℕ
  pub busy : Bool
  pub valid : Bool
  pub copy : Dinode
  pub open copy use *

pub record Fs : Type 0 where
  pub log : Log
  pub store : Store
  pub icache : List Inode

-- A call: a new state with a value, a panic, or a sleep.
abbrev pub M {ℓ} : Type ℓ → Type ℓ
M A = Fs → Result (A × Fs)

abbrev pub pure {ℓ} : {A : Type ℓ} → A → M A
pure a s = ok (a, s)

infixl 5 ◌>>=◌ ◌>>◌
abbrev pub ◌>>=◌ {ℓ κ} : {A : Type ℓ} {B : Type κ} → M A → (A → M B) → M B
◌>>=◌ m f s = elim (m s) [ ok (a, s') ↦ f a s' | panic e ↦ panic e | waits ↦ waits ]

abbrev pub ◌>>◌ {ℓ} : {B : Type ℓ} → M (Unit {0}) → M B → M B
m >> k = m >>= λ _. k

-- Inversion of a sequence that returned.
pub bind_ok {ℓ κ} :
    {A : Type ℓ} {B : Type κ} (m : M A) (f : A → M B) (s : Fs) (b : B) (t : Fs)
    → (m >>= f) s ≡ ok (b, t)
    → (a : A) × (u : Fs) × (m s ≡ ok (a, u)) × (f a u ≡ ok (b, t))
bind_ok {A} {B} m f s b t e = go (m s) refl
  where
    go :
        (r : Result (A × Fs))
        → m s ≡ r
        → (a : A) × (u : Fs) × (m s ≡ ok (a, u)) × (f a u ≡ ok (b, t))
    go (ok (a, u)) q = (a, u, q, sym (rw (q, ◌>>=◌)) ∙ e)
    go (panic x) q =
        let h : ◌≡◌ {A = Result (B × Fs)} (panic x) (ok (b, t)) = sym (rw (q, ◌>>=◌)) ∙ e in cc
    go waits q = let h : ◌≡◌ {A = Result (B × Fs)} waits (ok (b, t)) = sym (rw (q, ◌>>=◌)) ∙ e in cc

pub seq_ok {ℓ} :
    {B : Type ℓ} (m : M (Unit {0})) (k : M B) (s : Fs) (b : B) (t : Fs)
    → (m >> k) s ≡ ok (b, t)
    → (u : Fs) × (m s ≡ ok (tt, u)) × (k u ≡ ok (b, t))
seq_ok m k s b t e = let (a, u, first, rest) = bind_ok m (λ _. k) s b t e in (u, first, rest)

abbrev pub fail {ℓ} : {A : Type ℓ} → String → M A
fail e s = panic e

-- `bread(dev, b)->data`.
unfoldable pub read_block : ℕ → M Block
unfolding bread
read_block b s = ok (bread s.store b, s)

-- The assignments to `bp->data` of a buffer and `log_write(bp)`.
unfoldable pub write_block : ℕ → Block → M (Unit {0})
write_block b contents s = elim (Transaction.write_block s.log s.store b contents) [
  | ok (l, st) ↦ ok (tt, record s { log = l; store = st })
  | panic e ↦ panic e
  | waits ↦ waits
]

pub record Superblock : Type 0 where
  pub size : ℕ
  pub nblocks : ℕ
  pub ninodes : ℕ
  pub nlog : ℕ

abbrev pub superblock_of : Block → Superblock
superblock_of b = record {
  size = get_word b 0;
  nblocks = get_word b 1;
  ninodes = get_word b 2;
  nlog = get_word b 3;
}

unfoldable pub readsb : M Superblock
unfolding read_block
readsb = do b ← read_block 1; pure (superblock_of b)

-- Bytes from BSIZE on do not exist; a block of zeros is zero everywhere.
unfoldable pub bzero : ℕ → M (Unit {0})
unfolding write_block
bzero bno = write_block bno (λ _. 0)
