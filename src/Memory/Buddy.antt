-- ===== src/Memory/Buddy.antt =====
-- Kernel/memory/buddyManager.c: a binary buddy allocator over a complete tree of node states.
-- The pool is one uint8_t array; here `node_state` is a function of the index, and `header` gives
-- the byte `order` of the AllocHdr that stands at an address.
-- The indices of the nodes stay below 2^20 and offsets below 2^22, so uint32_t arithmetic on them does
-- not wrap and is written without `%`; sizes and the two byte counters keep their wrap.
pub mod Tree
pub mod Refine
pub mod Orders
pub mod Valid
mod Tests
use tp2_sistemas_operativos.Prelude.{
  ℕ, zero, suc, ◌+◌, ◌-◌, ◌*◌, ◌/◌, ◌%◌, ◌^◌, Bool, true, false, ◌&&◌, ◌||◌, Option, none, some,
  ltb, ◌==◌, if◌then◌else◌, update,
}
use Prim.Native.Nat.{bit_or}
use tp2_sistemas_operativos.Memory.Align.{u32_mod, align, alignment}

pub data NodeState : Type 0 where
  free split full : NodeState

abbrev pub is_free : NodeState → Bool
is_free free = true
is_free _ = false

abbrev pub is_full : NodeState → Bool
is_full full = true
is_full _ = false

abbrev pub Nodes : Type 0
Nodes = ℕ → NodeState

pub record Buddy : Type 0 where
  pub pool_base : ℕ  -- 0 is the null pointer
  pub pool_size : ℕ
  pub max_order : ℕ
  pub node_state : Nodes
  pub used_bytes : ℕ
  pub free_bytes : ℕ
  pub header : ℕ → ℕ

abbrev pub hdr_size : ℕ
hdr_size = 8

abbrev pub min_block_size : ℕ
min_block_size = align (hdr_size + alignment)

abbrev pub max_order_allowed : ℕ
max_order_allowed = 22

-- The number of entries of the array `nodeState`.
abbrev pub node_state_length : ℕ
node_state_length = 2 ^ (max_order_allowed - 5 + 1) - 1

abbrev pub order_size : ℕ → ℕ
order_size order = 2 ^ order

-- `while (order_size(ord) < need) ord++` from `ord`, where `fuel` counts the shift widths up to 31
-- that are left; `none` is a shift by 32, which C leaves undefined.
unfoldable pub order_from : ℕ → ℕ → ℕ → Option ℕ
order_from zero ord need = none
order_from (suc fuel) ord need =
    let rest = order_from fuel (ord + 1) need in
    if ltb (order_size ord) need then rest else some ord

unfoldable pub at_least_min : ℕ → ℕ
at_least_min ord = if ltb (order_size ord) min_block_size then 5 else ord

unfoldable pub size_to_order : ℕ → Option ℕ
size_to_order user_size = elim (order_from 32 0 ((align user_size + hdr_size) % u32_mod)) [
  | none ↦ none
  | some ord ↦ some (at_least_min ord)
]

unfoldable pub idx_to_offset : ℕ → ℕ → ℕ → ℕ
idx_to_offset max_order idx order = (idx - (2 ^ (max_order - order) - 1)) * order_size order

-- A node whose children are both free becomes free.
abbrev pub join_children : ℕ → Nodes → NodeState → Nodes
join_children idx s other =
    update s idx
      (if is_free (s (2 * idx + 1)) && is_free (s (2 * idx + 1 + 1)) then free else other)

abbrev pub take_node : ℕ → ℕ → ℕ → Nodes → Option ℕ × Nodes
take_node max_order idx order s =
    if is_free (s idx)
    then (some (idx_to_offset max_order idx order), update s idx full)
    else (none, s)

-- What is returned after the recursive calls on the two children; the second counts only if the
-- first fails.
unfoldable pub settle : ℕ → Option ℕ × Nodes → Option ℕ × Nodes → Option ℕ × Nodes
settle idx (some off, s) right = (some off, s)
settle idx (none, s) (some off, u) = (some off, u)
settle idx (none, s) (none, u) = (
  none,
  if is_free (u (2 * idx + 1)) && is_free (u (2 * idx + 1 + 1)) then update u idx free else u,
)

-- Recursion is on `order`. At order 0 the code would go on with order 2^32 - 1; every call has
-- `want` at most `order`, so that the case is not reached.
unfoldable pub alloc_rec : ℕ → ℕ → ℕ → ℕ → Nodes → Option ℕ × Nodes
alloc_rec max_order want zero idx s =
    if is_full (s idx)
    then (none, s)
    else if 0 == want
    then take_node max_order idx 0 s
    else (none, s)
alloc_rec max_order want (suc child) idx s =
    let entered = if is_free (s idx) then update s idx split else s in
    let left = alloc_rec max_order want child (2 * idx + 1) entered in
    let right = alloc_rec max_order want child (2 * idx + 1 + 1) left.1 in
    if is_full (s idx)
    then (none, s)
    else if suc child == want
    then take_node max_order idx (suc child) s
    else settle idx left right

-- `blockOffset & halfSize` for a power of two `half`: the test of one bit.
abbrev pub has_bit : ℕ → ℕ → Bool
has_bit offset half = (offset / half) % 2 == 1

pub free_rec : ℕ → ℕ → ℕ → ℕ → Nodes → Nodes
free_rec block_order zero idx offset s = if ltb 0 block_order then s else update s idx free
free_rec block_order (suc child) idx offset s =
    let half = order_size child in
    let right = has_bit offset half in
    let below =
      free_rec block_order child (if right then 2 * idx + 1 + 1 else 2 * idx + 1)
        (if right then offset - half else offset) s in
    if ltb (suc child) block_order
    then s
    else if suc child == block_order
    then update s idx free
    else join_children idx below split

-- A pointer and the manager after the call; 0 is NULL. `none` is the undefined shift above.
pub place : ℕ → Buddy → Option ℕ × Nodes → ℕ × Buddy
place want m (none, s) = (0, record m { node_state = s })
place want m (some offset, s) = (
  m.pool_base + offset + hdr_size,
  record m {
    node_state = s;
    header = update m.header (m.pool_base + offset) want;
    used_bytes = (m.used_bytes + order_size want - hdr_size) % u32_mod;
    free_bytes = (m.free_bytes + u32_mod - order_size want) % u32_mod;
  },
)

unfoldable pub alloc_memory : ℕ → Buddy → Option (ℕ × Buddy)
unfolding place
alloc_memory size m =
    if m.pool_base == 0 || size == 0 then some (0, m) else elim (size_to_order size) [
      | none ↦ none
      | some want ↦ some (
          if ltb m.max_order want
          then (0, m)
          else place want m (alloc_rec m.max_order want m.max_order 0 m.node_state))
    ]

pub free_memory : ℕ → Buddy → Buddy
free_memory ptr m =
    let hdr = ptr - hdr_size in
    let order = m.header hdr in
    if ptr == 0 || m.pool_base == 0 then m else record m {
      node_state = free_rec order m.max_order 0 (hdr - m.pool_base) m.node_state;
      used_bytes = (m.used_bytes + u32_mod - (order_size order - hdr_size)) % u32_mod;
      free_bytes = (m.free_bytes + order_size order) % u32_mod;
    }

-- `x |= x >> k` for k = 1, 2, 4, 8, 16, then `x - (x >> 1)`.
pub round_down_pow2 : ℕ → ℕ
round_down_pow2 x0 =
    let x1 = bit_or x0 (x0 / 2) in
    let x2 = bit_or x1 (x1 / 4) in
    let x3 = bit_or x2 (x2 / 16) in
    let x4 = bit_or x3 (x3 / 256) in let x5 = bit_or x4 (x4 / 65536) in x5 - x5 / 2

-- `for (i = 0; i < n; i++) nodeState[i] = FREE`
abbrev pub clear_nodes : ℕ → Nodes → Nodes
clear_nodes n s i = if ltb i n then free else s i

-- `none`: the loop for `maxOrder` leaves the shift widths, which no size up to 2^22 does.
pub create_memory_manager : ℕ → ℕ → Buddy → Option Buddy
create_memory_manager start bytes m =
    let rounded = round_down_pow2 bytes in
    let size = if ltb (2 ^ max_order_allowed) rounded then 2 ^ max_order_allowed else rounded in
    if start == 0 || ltb bytes min_block_size then some m else elim (order_from 32 0 size) [
      | none ↦ none
      | some order ↦ some (record m {
        pool_base = start;
        pool_size = size;
        max_order = order;
        node_state = clear_nodes (2 ^ (order + 1 - 5) - 1) m.node_state;
        used_bytes = 0;
        free_bytes = size;
      })
    ]

pub record MemoryStatus : Type 0 where
  pub total : ℕ
  pub used : ℕ
  pub free : ℕ
  pub base : ℕ
  pub end : ℕ

-- The status is written only through a pointer that is not NULL.
pub get_memory_status : Buddy → MemoryStatus
get_memory_status m = record {
  total = m.pool_size;
  used = m.used_bytes;
  free = m.free_bytes;
  base = m.pool_base;
  end = m.pool_base + m.pool_size;
}
