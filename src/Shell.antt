-- ===== src/Shell.antt =====
-- The shell of lab2/lab2.2/lab2_shell.c.
pub mod Split
pub mod Pipes
pub mod Main
