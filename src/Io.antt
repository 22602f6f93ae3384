-- ===== src/Io.antt =====
-- The package io/fs: paths, the filesystem in memory, and the one with a limited size.
pub mod Path
pub mod Mem
pub mod Sized
