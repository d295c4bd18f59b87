-- ===== src/Memory/Buddy/Refine.antt =====
-- The array of node states of Kernel/memory/buddyManager.c against the abstract tree.
pub mod Shape
pub mod At
pub mod Alloc
pub mod Free
