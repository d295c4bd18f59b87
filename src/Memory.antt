-- ===== src/Memory.antt =====
-- The kernel's heap: Kernel/include/memoryManager.h and its two implementations.
pub mod Align
pub mod Powers
pub mod Buddy
pub mod Naive
pub mod Interface
