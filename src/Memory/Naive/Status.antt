-- ===== src/Memory/Naive/Status.antt =====
-- Kernel/memory/naiveManager.c: `createMemoryManager` and `getMemoryStatus`.
use tp2_sistemas_operativos.Prelude.{
  ℕ, zero, suc, ◌+◌, ◌-◌, ◌*◌, ◌%◌, ◌^◌, ◌≤◌, ◌<◌, ◌≡◌, refl, ap, ap₂, ==_ne, ◌∙◌, arith, List, [],
  ◌∷◌, some, true, false, ◌||◌, leb, ◌==◌, if◌then◌else◌, length, update_self,
}
use tp2_sistemas_operativos.Memory.Naive.{
  Block, Naive, create_memory_manager, count_from, get_memory_status, totals, status_of,
}
use tp2_sistemas_operativos.Memory.Naive.Chain.{Cell, total, Chain, Chain-total}
use tp2_sistemas_operativos.Memory.Naive.Valid.{IsValid}

abbrev pub used_bytes : List Cell → ℕ
used_bytes [] = 0
used_bytes (c ∷ cs) = (if c.1 then 0 else c.0) + used_bytes cs

abbrev pub free_bytes : List Cell → ℕ
free_bytes [] = 0
free_bytes (c ∷ cs) = (if c.1 then c.0 else 0) + free_bytes cs

-- The headers, the bytes in use and the free ones are all of the pool.
bytes-total :
    (cells : List Cell) → 24 * length cells + used_bytes cells + free_bytes cells ≡ total cells
bytes-total [] = refl
bytes-total ((s, true) ∷ cs) = omega (arith, bytes-total cs)
bytes-total ((s, false) ∷ cs) = omega (arith, bytes-total cs)

count_from-bytes :
    (fuel before p a used available : ℕ) (m : Naive) (cells : List Cell) (stop : ℕ)
    → length cells < fuel
    → 0 < a
    → used + available + total cells < 2 ^ 32
    → Chain m.blocks before p a cells stop
    → count_from fuel p (used, available) m
      ≡ some (used + used_bytes cells, available + free_bytes cells)
unfolding count_from
count_from-bytes zero before p a used available m cells stop lt pos small h = absurd (omega arith)
count_from-bytes (suc fuel) before p a used available m [] stop lt pos small h =
    rw h.0 (ap₂ (λ x y. some (x, y)) (omega arith) (omega arith))
count_from-bytes (suc fuel) before p a used available m ((s, true) ∷ cs) stop lt pos small h =
    let fits : (available + s) % 2 ^ 32 ≡ available + s = omega arith in
    rw (h.0, ==_ne a 0 (λ z. absurd (omega arith)), h.1.free, h.1.size, fits)
      (count_from-bytes fuel a (m.blocks a).next (a + 24 + s) used (available + s) m cs stop
          (omega arith) (omega arith) (omega arith) h.2
        ∙ ap₂ (λ x y. some (x, y)) (omega arith) (omega arith))
count_from-bytes (suc fuel) before p a used available m ((s, false) ∷ cs) stop lt pos small h =
    let fits : (used + s) % 2 ^ 32 ≡ used + s = omega arith in
    rw (h.0, ==_ne a 0 (λ z. absurd (omega arith)), h.1.free, h.1.size, fits)
      (count_from-bytes fuel a (m.blocks a).next (a + 24 + s) (used + s) available m cs stop
          (omega arith) (omega arith) (omega arith) h.2
        ∙ ap₂ (λ x y. some (x, y)) (omega arith) (omega arith))

length-le-total : (cs : List Cell) → length cs ≤ total cs
length-le-total [] = omega arith
length-le-total (c ∷ cs) = omega (arith, length-le-total cs)

-- `getMemoryStatus` of a list of blocks that fill the pool answers, with the pool's place and size and
-- the bytes of the used and of the free blocks. Together with 24 bytes of header for each block these
-- are all of the pool, so that the total is larger than what is used and free.
pub get_memory_status_lem :
    (m : Naive) (cells : List Cell)
    → IsValid m cells
    → (get_memory_status m ≡ some (totals m (used_bytes cells) (free_bytes cells)))
      × (24 * length cells + used_bytes cells + free_bytes cells ≡ m.memory_pool_size)
unfolding get_memory_status
get_memory_status_lem m cells v =
    let whole = Chain-total m.blocks 0 m.first_block m.first_block cells _ v.chain in
    (
      ap (status_of m) (
            count_from-bytes (suc m.memory_pool_size) 0 m.first_block m.first_block 0 0 m cells
              (m.first_block + m.memory_pool_size) (omega (arith, whole, length-le-total cells))
              v.pos (omega (arith, whole, v.small)) v.chain)
          ∙ ap₂ (λ x y. some (totals m x y)) (omega arith) (omega arith),
      omega (arith, whole, bytes-total cells),
    )

-- `createMemoryManager` on a start that is not NULL and a size above a header's and at most 2^32 - 9
-- gives a pool that is one free block.
pub create_memory_manager_cell :
    (start size : ℕ) (m : Naive)
    → 0 < start
    → 24 < size
    → size + 8 < 2 ^ 32
    → IsValid (create_memory_manager start size m) ((size - 24, true) ∷ [])
unfolding create_memory_manager
create_memory_manager_cell start size m h1 h2 h3 =
    let begins : (start == 0 || leb size 24) ≡ false = ground arith in
    let block : Block = record { size = size - 24; free = true; next = 0; prev = 0 } in
    let at = update_self m.blocks block start in
    rw begins (record {
      pos = h1;
      small = h3;
      chain = (
        refl,
        rw at (record { size = refl; free = refl; prev = refl }),
        rw at (refl, omega arith),
      );
    })
