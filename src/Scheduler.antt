-- ===== src/Scheduler.antt =====
-- Kernel/process/scheduler.c: five priority queues, aging, quantums and the choice of the next process.
pub mod Ready
pub mod Aging
pub mod Switch
pub mod Block
mod Tests
