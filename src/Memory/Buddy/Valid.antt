-- ===== src/Memory/Buddy/Valid.antt =====
-- The whole manager of Kernel/memory/buddyManager.c: what holds between two calls.
pub mod Sums
pub mod Requests
pub mod Alloc
pub mod Free
pub mod Undo
pub mod Overlap
pub mod Boot
use tp2_sistemas_operativos.Prelude.{ℕ, ◌+◌, ◌-◌, ◌*◌, ◌^◌, ◌≤◌, ◌<◌, ◌≡◌, List, All, length}
use tp2_sistemas_operativos.Memory.Buddy.{Buddy}
use tp2_sistemas_operativos.Memory.Buddy.Tree.{Tree, Block, blocks, IsMerged}
use tp2_sistemas_operativos.Memory.Buddy.Refine.Shape.{Repr}
use Sums.{total}

abbrev pub in_use : Buddy → Tree → List Block
in_use m t = blocks m.max_order 0 t

-- The array holds the tree `t`, each block in use has its order in its header, and the two counters
-- agree with the blocks: `used` leaves out the eight header bytes of each, `free` does not.
pub record IsValid (m : Buddy) (t : Tree) : Type 0 where
  pub base : 0 < m.pool_base
  pub low : 5 ≤ m.max_order
  pub high : m.max_order ≤ 22
  pub size : m.pool_size ≡ 2 ^ m.max_order
  pub repr : Repr m.node_state (m.max_order - 5) 0 t
  pub merged : IsMerged m.max_order t
  pub orders : All (λ b. 5 ≤ b.1) (in_use m t)
  pub headers : All (λ b. m.header (m.pool_base + b.0) ≡ b.1) (in_use m t)
  pub free_count : m.free_bytes + total (in_use m t) ≡ 2 ^ m.max_order
  pub used_count : m.used_bytes + 8 * length (in_use m t) ≡ total (in_use m t)
