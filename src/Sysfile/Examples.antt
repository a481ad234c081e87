-- ===== src/Sysfile/Examples.antt =====
-- Calls of one process (sysfile.c) on the small file system of the examples for fs.c.
mod State
mod Runs
