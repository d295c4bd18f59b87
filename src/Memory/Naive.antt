-- ===== src/Memory/Naive.antt =====
-- Kernel/memory/naiveManager.c: the first-fit manager, a doubly linked list of blocks.
-- A `Block *` is its address, and 0 is NULL; `blocks` is the memory seen as headers. A walk along the
-- list has fuel, and its result is `none` when the fuel runs out. A block takes 24 bytes of the pool
-- at least, so that a fuel of the pool's size is enough.
pub mod Chain
pub mod Valid
pub mod Join
pub mod Fit
pub mod Alloc
pub mod Free
pub mod Tidy
pub mod Undo
pub mod Status
mod Tests
use tp2_sistemas_operativos.Prelude.{
  ℕ, zero, suc, ◌+◌, ◌-◌, ◌*◌, ◌/◌, ◌%◌, ◌^◌, Option, none, some, Bool, true, false, not, ◌&&◌,
  ◌||◌, ltb, leb, ◌==◌, if◌then◌else◌, update,
}
use tp2_sistemas_operativos.Memory.Align.{u32_mod, alignment, align}
use tp2_sistemas_operativos.Memory.Buddy.{MemoryStatus}

pub record Block : Type 0 where
  pub size : ℕ
  pub free : Bool
  pub next : ℕ
  pub prev : ℕ

pub record Naive : Type 0 where
  pub blocks : ℕ → Block
  pub first_block : ℕ
  pub memory_pool_size : ℕ

-- `sizeof(Block)` is 24, a multiple of eight.
abbrev pub block_header_size : ℕ
block_header_size = 24

abbrev pub put_block : ℕ → Block → Naive → Naive
put_block b x m = record m { blocks = update m.blocks b x }

abbrev pub next_physical_block : ℕ → Block → ℕ
next_physical_block b x = b + block_header_size + x.size

abbrev pub has_room_for_split : Block → ℕ → Bool
has_room_for_split x requested = leb ((requested + block_header_size + alignment) % u32_mod) x.size

pub create_memory_manager : ℕ → ℕ → Naive → Naive
create_memory_manager start size m =
    let fresh : Naive = record {
      blocks =
          update m.blocks start
            (record { size = size - block_header_size; free = true; next = 0; prev = 0 });
      first_block = start;
      memory_pool_size = size;
    } in
    if start == 0 || leb size block_header_size then m else fresh

-- The walk of `findSuitableBlock` from the block `b`; the inner 0 is NULL.
pub find_from : ℕ → ℕ → ℕ → Naive → Option ℕ
find_from zero b requested m = none
find_from (suc fuel) b requested m =
    let x = m.blocks b in
    let rest = find_from fuel x.next requested m in
    if b == 0 then some 0 else if x.free && leb requested x.size then some b else rest

pub find_suitable_block : ℕ → Naive → Option ℕ
find_suitable_block requested m = find_from (suc m.memory_pool_size) m.first_block requested m

-- `p->prev = b`, for a pointer that is not NULL.
pub set_prev : ℕ → ℕ → Naive → Naive
set_prev p b m = record m {
  blocks = if p == 0 then m.blocks else update m.blocks p (record (m.blocks p) { prev = b });
}

pub split_block : ℕ → ℕ → Naive → Naive
split_block b requested m =
    let x = m.blocks b in
    let new_block = b + block_header_size + requested in
    let m1 =
      put_block new_block
        (record {
          size = (x.size + 2 * u32_mod - requested - block_header_size) % u32_mod;
          free = true;
          next = x.next;
          prev = b;
        })
        m in
    let m2 = set_prev (m1.blocks b).next new_block m1 in
    put_block b (record (m2.blocks b) { next = new_block; size = requested }) m2

-- The block found, or NULL.
pub take_block : ℕ → ℕ → Naive → ℕ × Naive
take_block b requested m =
    let m1 = if has_room_for_split (m.blocks b) requested then split_block b requested m else m in
    if b == 0
    then (0, m)
    else (b + block_header_size, put_block b (record (m1.blocks b) { free = false }) m1)

-- `none` is the fuel of the walk.
pub alloc_memory : ℕ → Naive → Option (ℕ × Naive)
alloc_memory size m = if size == 0 then some (0, m) else elim (find_suitable_block (align size) m) [
  | none ↦ none
  | some b ↦ some (take_block b (align size) m)
]

-- `b` takes in the block `c` behind it.
pub absorb : ℕ → ℕ → Naive → Naive
absorb b c m =
    let x = m.blocks b in
    let m1 =
      put_block b
        (record x {
          size = (x.size + block_header_size + (m.blocks c).size) % u32_mod;
          next = (m.blocks c).next;
        })
        m in
    set_prev (m1.blocks c).next b m1

pub merge_with_next : ℕ → Naive → Naive
merge_with_next b m =
    let c = (m.blocks b).next in
    if not (c == 0) && (m.blocks c).free && c == next_physical_block b (m.blocks b)
    then absorb b c m
    else m

pub merge_with_previous : ℕ → Naive → Naive
merge_with_previous b m =
    let c = (m.blocks b).prev in
    if not (c == 0) && (m.blocks c).free && b == next_physical_block c (m.blocks c)
    then absorb c b m
    else m

pub coalesce : ℕ → Naive → Naive
coalesce b m = merge_with_previous b (merge_with_next b m)

-- A block that is free already is left as it is. The segment is an address above the first header.
pub free_memory : ℕ → Naive → Naive
free_memory segment m =
    let b = segment - block_header_size in
    if segment == 0 || (m.blocks b).free
    then m
    else coalesce b (put_block b (record (m.blocks b) { free = true }) m)

-- The bytes in use and the free bytes of the blocks from `b` on, added up in 32 bits.
pub count_from : ℕ → ℕ → ℕ × ℕ → Naive → Option (ℕ × ℕ)
count_from zero b sums m = none
count_from (suc fuel) b (used, available) m =
    let x = m.blocks b in
    let sums =
      if x.free
      then (used, (available + x.size) % u32_mod)
      else ((used + x.size) % u32_mod, available) in
    let rest = count_from fuel x.next sums m in if b == 0 then some (used, available) else rest

abbrev pub totals : Naive → ℕ → ℕ → MemoryStatus
totals m used available = record {
  total = m.memory_pool_size;
  used = used;
  free = available;
  base = m.first_block;
  end = m.first_block + m.memory_pool_size;
}

abbrev pub status_of : Naive → Option (ℕ × ℕ) → Option MemoryStatus
status_of m none = none
status_of m (some (used, available)) = some (totals m used available)

-- For a pointer that is not NULL.
pub get_memory_status : Naive → Option MemoryStatus
get_memory_status m = status_of m (count_from (suc m.memory_pool_size) m.first_block (0, 0) m)
