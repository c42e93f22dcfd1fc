-- ===== src/Fat16/Files.antt =====
-- What whole operations of lab4/simple_fat16_new.c do to a file in the root directory.
pub mod Layout
pub mod Names
pub mod Search
pub mod Unlink
pub mod Create
pub mod Extend
pub mod Stored
pub mod Write
pub mod ReadBack
pub mod Pieces
pub mod Grown
pub mod Append
pub mod Longer
pub mod Lifecycle
pub mod NameSet
