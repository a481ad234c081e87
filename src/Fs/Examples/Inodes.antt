-- ===== src/Fs/Examples/Inodes.antt =====
-- Inodes (fs.c) of the small file system.
use zv.Prelude.{
  ℕ, ◌+◌, ◌-◌, ◌/◌, ◌≤◌, ◌<◌, ◌≡◌, ◌≢◌, refl, inr, arith, true, ◌&&◌, ◌==◌, ltb, if◌then◌else◌, min,
  ok, [], ◌∷◌, Option, some, none, get_elem?, pos,
}
use zv.Block.{get_word}
use zv.Disk.{bread}
use zv.Strings.Moves.{within}
use zv.Fs.{Fs, Inode, Dinode, read_block}
use zv.Fs.Image.{get_dinode}
use zv.Fs.Writes.{view}
use zv.Fs.Content.{DeviceRead, load, store_inode, direct, indirect, bmap, readi, readi_loop}
use zv.Fs.Content.Reading.{Mapped, file_byte, readi_lem}
use zv.Fs.Icache.{scan, idup, reuse, iget}
use zv.Fs.Icache.Refs.{refs, entries}
use zv.Fs.Icache.Get.{iget-refs}
use zv.Fs.Ilock.{
  xor, xor_words, checksum_loop, ichecksum, succeed, verify, check, read_inode, ilock_ext,
}
use zv.Fs.Ilock.Verified.{Verified, ilock_ext-Verified}
use zv.Fs.Content.{indirect}
use zv.Fs.Path.{skipelem, dirsiz}
use zv.Fs.Path.Element.{skipelem_lem}
use zv.Fs.Examples.Disks.{fs, entry, inodes, state_of}

abbrev no_devices : ℕ → Option DeviceRead
no_devices major = none

-- The cache of `fs` after inode 1 was read.
abbrev file : Dinode
unfolding get_dinode get_word
file = get_dinode inodes 1

abbrev read_entry : Inode
read_entry = record entry { busy = true; copy = file }

abbrev read_fs : Fs
read_fs = record fs { icache = entry ∷ read_entry ∷ [] }

file-Mapped :
    (x : ℕ) → 0 ≤ x → x < read_entry.size → Mapped (view read_fs) read_entry.copy (x / 512)
unfolding get_dinode get_word file
file-Mapped x h lt =
    let first : x / 512 ≡ 0 = omega arith in
    rw first (record { inside = omega arith; table = λ e. cc; there = λ e. omega arith })

not_device : read_entry.type ≢ 3
unfolding get_dinode get_word file
not_device e = omega arith

readi_example :
    (out : ℕ → ℕ) × (readi no_devices 1 (λ _. 0) 0 8 read_fs
      ≡ ok (some (min 8 (read_entry.size - 0), out), read_fs))
    × ((j : ℕ)
        → out j ≡ (
            if ltb j (min 8 (read_entry.size - 0))
            then file_byte (view read_fs) read_entry.copy (0 + j)
            else 0))
readi_example =
    readi_lem read_fs 1 read_entry refl no_devices (λ _. 0) 0 8 not_device (omega arith)
      (omega arith) file-Mapped

few : (x : ℕ) → entries fs x ≤ 1
few x = ground arith

abbrev with_ref : Fs
unfolding iget scan idup reuse load store_inode
with_ref = state_of (iget 1 fs)

gets : iget 1 fs ≡ ok (1, with_ref)
unfolding with_ref iget scan idup reuse load store_inode
gets = refl

iget_example :
    ((x : ℕ) → refs with_ref x ≡ refs fs x + (if x == 1 then 1 else 0))
    × ((x : ℕ) → entries with_ref x ≤ 1)
    × (q : Inode) × (get_elem? with_ref.icache 1 ≡ some q)
    × (q.inum ≡ 1)
    × (0 < q.ref)
iget_example = iget-refs 1 1 fs with_ref few gets

abbrev locked : Fs
unfolding ilock_ext read_inode verify check ichecksum checksum_loop xor_words xor readi readi_loop
    bmap direct indirect load store_inode succeed read_block bread get_dinode get_word
locked = state_of (ilock_ext 1 no_devices 1 true fs)

locks : ilock_ext 1 no_devices 1 true fs ≡ ok (pos 0, locked)
unfolding locked ilock_ext read_inode verify check ichecksum checksum_loop xor_words xor readi
    readi_loop bmap direct indirect load store_inode succeed read_block bread get_dinode get_word
locks = refl

ilock_example : Verified no_devices 1 locked
ilock_example = ilock_ext-Verified no_devices 1 1 entry fs locked refl refl locks

-- The path "/a/b" at address 100.
abbrev path : ℕ → ℕ
path x =
    if x == 100
    then 47
    else if x == 101
    then 97
    else if x == 102
    then 47
    else if x == 103
    then 98
    else 0

skipelem_example :
    ((skipelem 4 100 200 path).0 ≡ some (100 + 1 + 1 + 1))
    × ((x : ℕ)
        → (skipelem 4 100 200 path).1 x ≡ (
            if within 200 (min 1 dirsiz) x
            then path (100 + 1 + (x - 200))
            else if ltb 1 dirsiz && x == 200 + 1
            then 0
            else path x))
skipelem_example =
    skipelem_lem 4 100 200 1 0 1 path (λ i h l. ground arith) (λ i h l. ground arith) refl
      (λ i h l. ground arith) refl (inr (omega arith)) (omega arith) (omega arith) (omega arith)
