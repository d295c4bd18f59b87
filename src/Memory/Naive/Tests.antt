-- ===== src/Memory/Naive/Tests.antt =====
-- A pool of 1024 bytes at 4096, and one in which a block of 16 bytes in use lies behind a free one.
use tp2_sistemas_operativos.Prelude.{
  ℕ, ◌+◌, ◌*◌, ◌≡◌, refl, arith, List, [], ◌∷◌, some, true, false, ◌==◌, if◌then◌else◌,
}
use tp2_sistemas_operativos.Memory.Align.{align}
use tp2_sistemas_operativos.Memory.Naive.{
  Naive, alloc_memory, free_memory, get_memory_status, totals,
}
use tp2_sistemas_operativos.Memory.Naive.Chain.{Cell}
use tp2_sistemas_operativos.Memory.Naive.Valid.{IsValid}
use tp2_sistemas_operativos.Memory.Naive.Alloc.{alloc_memory-first_fit, segment}
use tp2_sistemas_operativos.Memory.Naive.Fit.{first_fit, allocated}
use tp2_sistemas_operativos.Memory.Naive.Free.{free_memory-join_next}
use tp2_sistemas_operativos.Memory.Naive.Tidy.{IsCoalesced, alloc_memory-IsCoalesced}
use tp2_sistemas_operativos.Memory.Naive.Undo.{free_memory-carved}
use tp2_sistemas_operativos.Memory.Naive.Status.{get_memory_status_lem}

abbrev empty : Naive
empty = record {
  blocks = λ a. record { size = 0; free = false; next = 0; prev = 0 };
  first_block = 0;
  memory_pool_size = 0;
}

-- Three blocks: 40 bytes that are free, 16 in use and 896 free.
abbrev pool : Naive
pool = record {
  blocks = λ a.
      if a == 4096
      then record { size = 40; free = true; next = 4160; prev = 0 }
      else if a == 4160
      then record { size = 16; free = false; next = 4200; prev = 4096 }
      else record { size = 896; free = true; next = 0; prev = 4160 };
  first_block = 4096;
  memory_pool_size = 1024;
}

abbrev cells : List Cell
cells = (40, true) ∷ (16, false) ∷ (896, true) ∷ []

pool-IsValid : IsValid pool cells
pool-IsValid = record {
  pos = omega arith;
  small = omega arith;
  chain = (
    refl,
    record { size = refl; free = refl; prev = refl },
    (
      refl,
      record { size = refl; free = refl; prev = refl },
      (refl, record { size = refl; free = refl; prev = refl }, (refl, refl)),
    ),
  );
}

-- 20 bytes are rounded to 24 and taken from the first block, which has no room to be split.
alloc_memory-first_fit_example :
    (m' : Naive) × (alloc_memory 20 pool ≡ some (segment (first_fit (align 20) 4096 cells), m'))
    × (m'.first_block ≡ 4096)
    × IsValid m' (allocated (align 20) cells)
alloc_memory-first_fit_example = alloc_memory-first_fit 20 pool cells (omega arith) pool-IsValid

taken : allocated (align 20) cells ≡ (40, false) ∷ (16, false) ∷ (896, true) ∷ []
taken = refl

split : allocated (align 100) cells ≡ (40, true) ∷ (16, false) ∷ (104, false) ∷ (768, true) ∷ []
split = refl

-- The block between two free ones becomes one with both.
free_memory-join_next_example : IsValid (free_memory 4184 pool) ((1000, true) ∷ [])
free_memory-join_next_example =
    free_memory-join_next pool ((40, true) ∷ []) 16 ((896, true) ∷ []) pool-IsValid

alloc_memory-IsCoalesced_example :
    ((a : ℕ) × (m' : Naive) × (cells' : List Cell) × (alloc_memory 20 pool ≡ some (a, m'))
      × IsCoalesced m' cells')
    × ((cells' : List Cell) × IsCoalesced (free_memory 4184 pool) cells')
alloc_memory-IsCoalesced_example =
    alloc_memory-IsCoalesced 20 pool cells ((40, true) ∷ []) 16 ((896, true) ∷ []) (omega arith)
      (pool-IsValid, (refl, (refl, _))) refl

free_memory-carved_example :
    (a : ℕ) × (m' : Naive) × (alloc_memory 100 pool ≡ some (a, m'))
    × IsValid (free_memory a m') cells
free_memory-carved_example =
    free_memory-carved 100 pool cells (omega arith) (pool-IsValid, (refl, (refl, _)))
      (λ e. absurd (omega arith))

get_memory_status_example :
    (get_memory_status pool ≡ some (totals pool 16 936)) × (24 * 3 + 16 + 936 ≡ 1024)
get_memory_status_example = get_memory_status_lem pool cells pool-IsValid
