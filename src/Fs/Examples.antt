-- ===== src/Fs/Examples.antt =====
-- Runs of fs.c on a disk of 120 blocks with 8 inodes and a log of 20 blocks.  Inode 1 is a file with the
-- bytes "abc" in block 5; the blocks up to 5 are allocated.
mod Disks
mod Blocks
mod Inodes
mod Writing
