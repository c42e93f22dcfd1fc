-- ===== src/Kmscan.antt =====
-- The kernel module of lab3/EXP3.2/sec3.c.
pub mod Settings
pub mod Pages
pub mod Proc
