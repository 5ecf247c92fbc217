-- ===== src/Bin.antt =====
-- src/bin: the executables.
pub mod Config
pub mod Worker
pub mod Ctl
