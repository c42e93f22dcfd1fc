-- ===== src/Fat16.antt =====
-- The FAT16 file system of lab4/simple_fat16_new.c and lab4/fat16.h.
pub mod Image
pub mod Volume
pub mod Table
pub mod Paths
pub mod Names
pub mod Scan
pub mod Lookup
pub mod Locate
pub mod Update
pub mod Read
pub mod Attr
pub mod Write
pub mod Files
pub mod FileMap
pub mod Bench
pub mod Main
