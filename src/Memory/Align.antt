-- ===== src/Memory/Align.antt =====
-- The macro ALIGN of Kernel/include/memoryManager.h on uint32_t, and the word size.
use tp2_sistemas_operativos.Prelude.{ℕ, ◌+◌, ◌-◌, ◌*◌, ◌/◌, ◌%◌, ◌^◌, ◌≤◌, ◌<◌, ◌≡◌, arith}

abbrev pub u32_mod : ℕ
u32_mod = 2 ^ 32

abbrev pub alignment : ℕ
alignment = 8

-- `((sz) + (ALIGNMENT - 1)) & ~(ALIGNMENT - 1)`: the sum wraps, and the mask clears three bits.
abbrev pub align : ℕ → ℕ
align sz = (sz + (alignment - 1)) % u32_mod / alignment * alignment

-- Below 2^32 - 8 the macro rounds up to the next multiple of eight.
pub align_bounds :
    (sz : ℕ) → sz + 8 ≤ u32_mod → (sz ≤ align sz) × (align sz < sz + 8) × (align sz % 8 ≡ 0)
align_bounds sz h = omega arith
