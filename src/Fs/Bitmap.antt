-- ===== src/Fs/Bitmap.antt =====
-- `balloc` and `bfree` (fs.c): the allocation of disk blocks in the free bitmap.
pub mod Defs
pub mod Search
pub mod Laws
pub mod Free
