-- ===== src/Fs/Examples/Writing.antt =====
-- `writei_ext` and `dirlookup` (fs.c) on the small file system.
use zv.Prelude.{
  ℕ, ◌+◌, ◌/◌, ◌<◌, ◌≡◌, refl, arith, true, ◌==◌, if◌then◌else◌, ok, [], ◌∷◌, Option, some, none,
}
use zv.Fs.{Fs, Inode}
use zv.Fs.Content.{DeviceRead, readi}
use zv.Fs.Writes.{view}
use zv.Fs.Image.{Fits}
use zv.Fs.Content.Reading.{Mapped}
use zv.Fs.Ilock.{ichecksum}
use zv.Fs.Update.{iupdate}
use zv.Fs.Update.Stored.{Stored, iupdate-get_dinode}
use zv.Fs.Writing.{Devsw, writei_loop}
use zv.Fs.Writing.Loop.{Placed, touched}
use zv.Fs.Writing.Reread.{readi-writei_loop}
use zv.Fs.Directory.{dirlookup}
use zv.Fs.Directory.Lookup.{Listing, Search, finish, dirlookup-Search}
use zv.Fs.Examples.Disks.{fs, fs-InTrans, blocks, store, entry, no_dinode}

abbrev no_devices : ℕ → Option DeviceRead
no_devices major = none

-- Inode 1 in memory: a file in block 5.
abbrev file_entry : Inode
file_entry = record entry {
  busy = true;
  copy = record no_dinode { type = 2; nlink = 1; size = 3; addrs = λ i. if i == 0 then 5 else 0 };
}

abbrev file_fs : Fs
file_fs = record fs { icache = entry ∷ file_entry ∷ [] }

only_zero : (n : ℕ) → n < 1 → n ≡ 0
only_zero n h = omega arith

placed : Placed file_fs file_entry 1
placed = record {
  mapped = λ bn h.
      rw (only_zero bn h)
        (record { inside = omega arith; table = λ e. cc; there = λ e. omega arith });
  low = λ bn h. rw (only_zero bn h) (omega arith);
  apart = λ bn c h h' ne. absurd (ne (omega (arith, only_zero bn h, only_zero c h')));
  not_table = λ bn h. rw (only_zero bn h) (λ e. omega arith);
  table_low = omega arith;
}

two_touched : touched 1 2 ≡ 1
unfolding touched
two_touched = refl

readi-writei_loop_example :
    (t : Fs) × (out : ℕ → ℕ) × (writei_loop 2 1 (λ _. 7) 0 1 2 file_fs ≡ ok (1 + 2, t))
    × (readi no_devices 1 (λ _. 0) 1 2 t ≡ ok (some (2, out), t))
    × ((j : ℕ) → j < 2 → out j ≡ 7)
readi-writei_loop_example =
    readi-writei_loop blocks no_devices 1 file_entry 1 1 2 (λ _. 7) (λ _. 0) file_fs fs-InTrans
      placed refl (λ e. omega arith) (omega arith) (omega arith) (omega arith)
      (rw two_touched (omega arith)) (rw two_touched (omega arith))

file-Mapped : (x : ℕ) → x < 3 → Mapped (view file_fs) file_entry.copy (x / 512)
file-Mapped x lt =
    let first : x / 512 ≡ 0 = omega arith in
    rw first (record { inside = omega arith; table = λ e. cc; there = λ e. omega arith })

file-Fits : Fits file_entry.copy
file-Fits = record {
  type = omega arith;
  major = omega arith;
  minor = omega arith;
  nlink = omega arith;
  size = omega arith;
  addrs = λ j h. ground arith;
  child1 = omega arith;
  child2 = omega arith;
  checksum = omega arith;
}

iupdate_example :
    (sum : ℕ) × (t : Fs) × (ichecksum no_devices 1 file_fs ≡ ok (sum, file_fs))
    × (iupdate no_devices 1 file_fs ≡ ok (tt, t))
    × Stored blocks file_fs t file_entry sum
iupdate_example =
    iupdate-get_dinode no_devices blocks file_fs 1 file_entry refl (λ e. omega arith) (omega arith)
      file-Mapped file-Fits refl refl fs-InTrans (omega arith) (omega arith) (omega arith)

-- Inode 1 as a directory in block 5, with the entry "a" of inode 2 behind a free one.
abbrev dir_entry : Inode
dir_entry = record file_entry {
  copy = record no_dinode { type = 1; nlink = 1; size = 32; addrs = λ i. if i == 0 then 5 else 0 };
}

abbrev dir_fs : Fs
dir_fs = record fs {
  store = record store {
    view = λ x i. if x == 5 then (if i == 16 then 2 else if i == 18 then 97 else 0) else blocks x i;
  };
  icache = entry ∷ dir_entry ∷ [];
}

listing : Listing dir_fs 1 dir_entry
listing = record {
  cached = refl;
  dir = refl;
  whole = refl;
  fits = omega arith;
  mapped = λ x lt.
      let first : x / 512 ≡ 0 = omega arith in
      rw first (record { inside = omega arith; table = λ e. cc; there = λ e. omega arith });
}

abbrev name_a : ℕ → ℕ
name_a i = if i == 0 then 97 else 0

abbrev devsw : Devsw
devsw = record { reads = no_devices; writes = λ _. none }

dirlookup_example :
    (r : Option (ℕ × ℕ)) × Search dir_fs dir_entry name_a 0 r
    × (dirlookup devsw 1 name_a dir_fs ≡ finish r dir_fs)
dirlookup_example = dirlookup-Search dir_fs 1 dir_entry listing devsw name_a
