-- ===== src/Process.antt =====
-- Kernel/process/process.c: the process table, creation of processes, their end and their priorities.
pub mod Table
pub mod Create
pub mod Exit
mod Tests
