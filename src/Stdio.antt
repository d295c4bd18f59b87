-- ===== src/Stdio.antt =====
-- Formatted output and input: Userland/libc/stdio.c and Userland/libsys/ansiColors.c.
-- A string is its bytes before the NUL. What is written is a list of events: bytes handed to
-- `sys_write`, and the colours that `parseANSI` sets.
pub mod Ansi
pub mod Print
pub mod Scan
pub mod Laws
mod Tests
