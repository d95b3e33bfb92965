-- ===== src/Programs.antt =====
-- cmd: the two programs.
pub mod Exit
pub mod Closing
