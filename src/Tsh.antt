-- ===== src/Tsh.antt =====
-- The shell, shell lab/tsh.c: its job list, its parser, and its commands and signal handlers.
pub mod Jobs
pub mod ParseLine
pub mod Eval
pub mod Main
mod Tests
