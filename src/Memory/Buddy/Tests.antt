-- ===== src/Memory/Buddy/Tests.antt =====
-- The buddy manager of Kernel/memory/buddyManager.c on a pool of 128 bytes at 4096.
use tp2_sistemas_operativos.Prelude.{
  ℕ, ◌+◌, ◌^◌, ◌≤◌, ◌≡◌, ◌⊎◌, inl, inr, refl, arith, Option, none, some,
}
use tp2_sistemas_operativos.Memory.Buddy.{
  Buddy, free, round_down_pow2, create_memory_manager, alloc_memory, node_state_length,
  size_to_order, order_from, at_least_min, place, alloc_rec, settle, idx_to_offset,
}
use tp2_sistemas_operativos.Memory.Buddy.Tree.{area, free_tree}
use tp2_sistemas_operativos.Memory.Buddy.Tree.{HasRoom}
use tp2_sistemas_operativos.Memory.Buddy.Tree.Release.{Removed}
use tp2_sistemas_operativos.Memory.Buddy.Valid.{IsValid, in_use}
use tp2_sistemas_operativos.Memory.Buddy.Valid.Overlap.{Outside, alloc_memory-apart}
use tp2_sistemas_operativos.Memory.Buddy.Valid.Requests.{placed}
use tp2_sistemas_operativos.Memory.Buddy.Valid.Free.{released, free_memory_lem}
use tp2_sistemas_operativos.Memory.Buddy.Valid.Undo.{free_memory-alloc_memory}
use tp2_sistemas_operativos.Prelude.{All}
use tp2_sistemas_operativos.Memory.Buddy.Valid.Boot.{
  created, create_memory_manager-IsValid, small_request_out_of_bounds,
}
use tp2_sistemas_operativos.Memory.Buddy.Valid.Alloc.{Refused, Granted, alloc_memory_lem}

-- The static variables before `createMemoryManager`.
abbrev blank : Buddy
blank = record {
  pool_base = 0;
  pool_size = 0;
  max_order = 0;
  node_state = λ i. free;
  used_bytes = 0;
  free_bytes = 0;
  header = λ a. 0;
}

abbrev pool : Buddy
pool = created 4096 7 blank

rounds_down : round_down_pow2 200 ≡ 128
unfolding round_down_pow2
rounds_down = refl

rounds_kernel_heap : round_down_pow2 (2 ^ 22) ≡ 2 ^ 22
unfolding round_down_pow2
rounds_kernel_heap = refl

create_memory_manager-IsValid_example :
    (create_memory_manager 4096 200 blank ≡ some pool) × IsValid pool area
create_memory_manager-IsValid_example =
    create_memory_manager-IsValid 4096 200 7 blank (omega arith) (omega arith) rounds_down
      (omega arith) (omega arith)

pool-IsValid : IsValid pool area
pool-IsValid = create_memory_manager-IsValid_example.1

alloc_memory_example : Refused pool area 20 ⊎ Granted pool area 20
alloc_memory_example = alloc_memory_lem pool area 20 pool-IsValid (omega arith) (omega arith)

-- Two requests of 20 bytes take the two lowest blocks of 32; a third of 60 does not fit.
abbrev pointer_of : Option (ℕ × Buddy) → ℕ
pointer_of none = 1
pointer_of (some (p, m)) = p

abbrev manager_of : Option (ℕ × Buddy) → Buddy
manager_of none = blank
manager_of (some (p, m)) = m

first_request : pointer_of (alloc_memory 20 pool) ≡ 4104
unfolding alloc_memory size_to_order at_least_min order_from alloc_rec settle idx_to_offset
first_request = refl

second_request : pointer_of (alloc_memory 20 (manager_of (alloc_memory 20 pool))) ≡ 4136
unfolding alloc_memory size_to_order at_least_min order_from alloc_rec settle idx_to_offset
second_request = refl

small_request_example : (size_to_order 2 ≡ some 4) × (node_state_length ≤ 262143)
small_request_example =
    small_request_out_of_bounds 2 262143 0 (omega arith) (omega arith)
      (record { pos = 0; index = omega arith; offset = omega arith })

-- The first of those requests is not refused.
granted : Granted pool area 20
unfolding HasRoom size_to_order at_least_min order_from
granted = elim alloc_memory_example [
  | inl r ↦ absurd (r.no_room (ground (arith, r.order)))
  | inr g ↦ g
]

abbrev after_grant : Buddy
after_grant = placed granted.want granted.offset pool granted.nodes

abbrev after_first : Buddy
after_first = manager_of (alloc_memory 20 pool)

alloc_memory-apart_example :
    (pool.pool_base + 8 ≤ 4104)
    × (4104 + 20 ≤ pool.pool_base + pool.pool_size)
    × All (Outside pool.pool_base 4104 20) (in_use pool area)
    × (pool.pool_base + 8 ≤ 4136)
    × (4136 + 20 ≤ pool.pool_base + pool.pool_size)
    × ((4104 + 20 + 8 ≤ 4136) ⊎ (4136 + 20 + 8 ≤ 4104))
unfolding alloc_memory size_to_order at_least_min order_from alloc_rec settle idx_to_offset
alloc_memory-apart_example =
    alloc_memory-apart pool after_first (manager_of (alloc_memory 20 after_first)) area 20 20 4104
      4136 pool-IsValid (omega arith) (omega arith) (omega arith) (omega arith) refl (omega arith)
      refl (omega arith)

free_memory_example :
    IsValid
      (released granted.want granted.offset after_grant)
      (free_tree granted.want granted.offset 7 0 granted.tree)
    × Removed granted.want 7 0 granted.offset granted.tree
        (free_tree granted.want granted.offset 7 0 granted.tree)
unfolding place
free_memory_example =
    free_memory_lem after_grant granted.tree granted.want granted.offset granted.valid
      granted.added.held

free_memory-alloc_memory_example :
    released granted.want granted.offset after_grant ≡ record pool { header = after_grant.header }
free_memory-alloc_memory_example = free_memory-alloc_memory pool area 20 pool-IsValid granted
