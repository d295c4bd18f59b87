-- ===== src/Shell.antt =====
-- Userland/Shell/shell.c: the command interpreter.
pub mod Arguments
pub mod Line
pub mod Table
pub mod Builtins
pub mod Execute
mod Tests
