-- ===== src/Memory/Interface.antt =====
-- The heap as the rest of the kernel calls it, Kernel/include/memoryManager.h, which both managers
-- under Kernel/memory implement. A pointer is its address, and 0 is NULL.
use tp2_sistemas_operativos.Prelude.{ℕ, Option, none, some}
use tp2_sistemas_operativos.Memory.Buddy.{Buddy, alloc_memory, free_memory}
use tp2_sistemas_operativos.Memory.Naive as FirstFit

pub record Allocator : Type 1 where
  pub Heap : Type 0
  pub alloc : ℕ → Heap → ℕ × Heap
  pub free : ℕ → Heap → Heap

-- A request whose order the buddy manager's loop cannot find is answered as a refusal here; no call
-- of the kernel itself makes one. The walks of the first-fit manager always answer.
abbrev answer : {Heap : Type 0} → Heap → Option (ℕ × Heap) → ℕ × Heap
answer m none = (0, m)
answer m (some r) = r

-- The heap of a kernel that is built with MEMORY_MANAGER=buddy.
abbrev pub buddy_allocator : Allocator
buddy_allocator = record {
  Heap = Buddy;
  alloc = λ size m. answer m (alloc_memory size m);
  free = free_memory;
}

-- The heap of a kernel that is built with MEMORY_MANAGER=naive, the default.
abbrev pub naive_allocator : Allocator
naive_allocator = record {
  Heap = FirstFit.Naive;
  alloc = λ size m. answer m (FirstFit.alloc_memory size m);
  free = FirstFit.free_memory;
}
