-- ===== src/Fs/Examples/Disks.antt =====
-- A small file system (fs.h, mkfs.c).
use zv.Prelude.{
  ℕ, zero, ◌≤◌, ◌<◌, ◌≡◌, refl, arith, true, false, ◌==◌, if◌then◌else◌, [], ◌∷◌, Result, ok, panic,
  waits, suc,
}
use zv.Block.{Block, get_word}
use zv.Disk.{Store}
use zv.Log.{Log}
use zv.Log.Transaction.{started-Logging}
use zv.Fs.{Fs, Inode, Dinode}
use zv.Fs.Bits.{has_bit, test_bit}
use zv.Fs.Writes.{InTrans}
use zv.Fs.Bitmap.Laws.{Layout, is_allocated}

abbrev pub super : Block
super i = if i == 0 then 120 else if i == 8 then 8 else if i == 12 then 20 else 0

-- Inode 1: a file with one link and three bytes, whose checksum is the word of "abc".
abbrev pub inodes : Block
inodes i =
    if i == 64
    then 2
    else if i == 70
    then 1
    else if i == 72
    then 3
    else if i == 76
    then 5
    else if i == 124
    then 97
    else if i == 125
    then 98
    else if i == 126
    then 99
    else 0

abbrev pub bitmap : Block
bitmap i = if i == 0 then 63 else 0

abbrev pub abc : Block
abc i = if i == 0 then 97 else if i == 1 then 98 else if i == 2 then 99 else 0

abbrev pub blocks : ℕ → Block
blocks x i =
    if x == 1
    then super i
    else if x == 2
    then inodes i
    else if x == 4
    then bitmap i
    else if x == 5
    then abc i
    else 0

abbrev pub store : Store
store = record { view = blocks; disk = blocks; power = 50 }

abbrev pub no_dinode : Dinode
no_dinode = record {
  type = 0;
  major = 0;
  minor = 0;
  nlink = 0;
  size = 0;
  addrs = λ _. 0;
  child1 = 0;
  child2 = 0;
  checksum = 0;
}

abbrev pub free_entry : Inode
free_entry = record { inum = 0; ref = 0; busy = false; valid = false; copy = no_dinode }

abbrev pub entry : Inode
entry = record { inum = 1; ref = 1; busy = false; valid = false; copy = no_dinode }

abbrev pub log : Log
log = record { start = 100; size = 20; busy = true; n = 0; sector = λ _. 0 }

-- In a transaction, with one inode in the cache and one free entry.
abbrev pub fs : Fs
fs = record { log = log; store = store; icache = free_entry ∷ entry ∷ [] }

pub fs-InTrans : InTrans blocks fs
unfolding get_word
fs-InTrans =
    started-Logging {l = record log { busy = false }} {s = store}
      (record { empty = refl; clean = refl; synced = λ x lt. refl }) (omega arith)

pub fs-Layout : Layout fs
unfolding test_bit has_bit get_word
fs-Layout = record { inside = omega arith; meta = taken }
  where
    taken : (n : ℕ) → n ≤ 4 → is_allocated fs n ≡ true
    taken zero h = refl
    taken (suc zero) h = refl
    taken (suc (suc zero)) h = refl
    taken (suc (suc (suc zero))) h = refl
    taken (suc (suc (suc (suc zero)))) h = refl
    taken (suc (suc (suc (suc (suc n))))) h = absurd (omega arith)

-- The state that a call leaves.
abbrev pub state_of {ℓ} : {A : Type ℓ} → Result (A × Fs) → Fs
state_of (ok (a, s)) = s
state_of (panic e) = fs
state_of waits = fs

-- A disk of the given size whose first ten blocks are allocated, and that logs from block 10 on.
abbrev pub full : ℕ → Fs
full size = record {
  log = record { start = 10; size = 20; busy = true; n = 0; sector = λ _. 0 };
  store = record {
    view = λ x i.
        if x == 1
        then if i == 0 then size else if i == 8 then 8 else 0
        else if x == 4
        then (if i == 0 then 255 else if i == 1 then 3 else 0)
        else 0;
    disk = blocks;
    power = 50;
  };
  icache = [];
}

pub full-taken : (size n : ℕ) → n < 10 → is_allocated (full size) n ≡ true
unfolding test_bit has_bit get_word
full-taken size zero h = refl
full-taken size (suc zero) h = refl
full-taken size (suc (suc zero)) h = refl
full-taken size (suc (suc (suc zero))) h = refl
full-taken size (suc (suc (suc (suc zero)))) h = refl
full-taken size (suc (suc (suc (suc (suc zero))))) h = refl
full-taken size (suc (suc (suc (suc (suc (suc zero)))))) h = refl
full-taken size (suc (suc (suc (suc (suc (suc (suc zero))))))) h = refl
full-taken size (suc (suc (suc (suc (suc (suc (suc (suc zero)))))))) h = refl
full-taken size (suc (suc (suc (suc (suc (suc (suc (suc (suc zero))))))))) h = refl
full-taken size (suc (suc (suc (suc (suc (suc (suc (suc (suc (suc n)))))))))) h =
    absurd (omega arith)
