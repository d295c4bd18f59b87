-- ===== src/Memory/Buddy/Valid/Boot.antt =====
-- `createMemoryManager` of Kernel/memory/buddyManager.c, and the extent of the array `nodeState`.
use native.Mathlib.Decide.{dec_lt}
use tp2_sistemas_operativos.Prelude.{
  ℕ, zero, suc, ◌+◌, ◌-◌, ◌*◌, ◌^◌, ◌%◌, ◌≤◌, ◌<◌, ◌≡◌, inl, inr, refl, ap, ◌∙◌, arith, some,
}
use tp2_sistemas_operativos.Memory.Buddy.{
  Buddy, Nodes, free, round_down_pow2, create_memory_manager, order_from, clear_nodes,
  node_state_length, size_to_order, at_least_min,
}
use tp2_sistemas_operativos.Memory.Powers.{two_pow_suc, two_pow_pos, two_pow_mono}
use tp2_sistemas_operativos.Memory.Buddy.Tree.{Tree, area, blocks, IsMerged}
use tp2_sistemas_operativos.Memory.Buddy.Refine.Shape.{Sub, AllFree}
use tp2_sistemas_operativos.Memory.Align.{align}
use tp2_sistemas_operativos.Memory.Buddy.Refine.At.{At}
use tp2_sistemas_operativos.Memory.Buddy.Orders.{order_from-Least, Least}
use tp2_sistemas_operativos.Memory.Buddy.Valid.{IsValid}

-- The nodes from the order 5 up of a subtree stay below a bound that doubles with each level.
Sub-bound : (h i j : ℕ) → Sub h i j → j + 2 ≤ (i + 2) * 2 ^ h
Sub-bound zero i j e = omega arith
Sub-bound (suc h) i j (inl e) =
    grind (arith, two_pow_suc h, two_pow_pos h, ap (λ k. (i + 2) * k) (two_pow_suc h))
Sub-bound (suc h) i j (inr (inl p)) =
    omega (arith, Sub-bound h (2 * i + 1) j p, two_pow_pos h, ap (λ k. (i + 2) * k) (two_pow_suc h))
Sub-bound (suc h) i j (inr (inr p)) =
    omega (arith, Sub-bound h (2 * i + 1 + 1) j p, ap (λ k. (i + 2) * k) (two_pow_suc h))

-- Every node that a valid manager reaches for orders from 5 up is an entry of `nodeState`, and is
-- one of those that `createMemoryManager` cleared.
pub nodes_in_bounds :
    (m : Buddy) (t : Tree) (j : ℕ)
    → IsValid m t
    → Sub (m.max_order - 5) 0 j
    → (j < 2 ^ (m.max_order + 1 - 5) - 1) × (j < node_state_length)
nodes_in_bounds m t j v p = (omega (arith, bound, same), omega (arith, bound, same, cap))
  where
    bound : j + 2 ≤ (0 + 2) * 2 ^ (m.max_order - 5)
    bound = Sub-bound (m.max_order - 5) 0 j p

    same : 2 ^ (m.max_order + 1 - 5) ≡ 2 * 2 ^ (m.max_order - 5)
    same = ap (λ k. 2 ^ k) up ∙ two_pow_suc (m.max_order - 5)
      where
        up : m.max_order + 1 - 5 ≡ suc (m.max_order - 5)
        up = omega (arith, v.low)

    cap : 2 ^ (m.max_order - 5) ≤ 2 ^ 17
    cap = two_pow_mono (m.max_order - 5) 17 (omega (arith, v.high))

small_order : (need : ℕ) → need ≡ 16 → order_from 32 0 need ≡ some 4
unfolding order_from
small_order need e = rw e refl

-- A request of 1 to 8 bytes is given the order 4, one below the least order that `nodeState` has
-- entries for: in a pool of 4 MB every node of that order lies behind the end of the array.
pub small_request_out_of_bounds :
    (size idx start : ℕ)
    → 0 < size
    → size ≤ 8
    → At 22 4 idx start
    → (size_to_order size ≡ some 4) × (node_state_length ≤ idx)
unfolding size_to_order at_least_min
small_request_out_of_bounds size idx start lo hi a =
    (ground (arith, small_order need need_16), omega (arith, a.index))
  where
    need : ℕ
    need = (align size + 8) % 2 ^ 32

    need_16 : need ≡ 16
    need_16 = omega arith

AllFree-of : (s : Nodes) (h i : ℕ) → ((j : ℕ) → Sub h i j → s j ≡ free) → AllFree s h i
AllFree-of s zero i f = f i refl
AllFree-of s (suc h) i f = (
  f i (inl refl),
  AllFree-of s h (2 * i + 1) (λ j p. f j (inr (inl p))),
  AllFree-of s h (2 * i + 1 + 1) (λ j p. f j (inr (inr p))),
)

-- The loop finds the exponent of a power of two.
exponent : (k : ℕ) → k ≤ 31 → order_from 32 0 (2 ^ k) ≡ some k
exponent k h =
    let (order, e, l) = order_from-Least 31 0 (2 ^ k) 31 (omega arith) (two_pow_mono k 31 h) in
    e ∙ ap some (equal order l)
  where
    equal : (order : ℕ) → Least 0 (2 ^ k) order → order ≡ k
    equal order l = elim (dec_lt order k) [
      | yes less ↦ absurd (
          omega
            (arith, l.fits, two_pow_mono (suc order) k less, two_pow_suc order, two_pow_pos order))
      | no not_less ↦ elim (dec_lt k order) [
        | yes more ↦ absurd (omega (arith, l.least k (omega arith) more))
        | no not_more ↦ omega arith
      ]
    ]

-- The manager that `createMemoryManager` leaves behind.
abbrev pub created : ℕ → ℕ → Buddy → Buddy
created start k m = record m {
  pool_base = start;
  pool_size = 2 ^ k;
  max_order = k;
  node_state = clear_nodes (2 ^ (k + 1 - 5) - 1) m.node_state;
  used_bytes = 0;
  free_bytes = 2 ^ k;
}

created-IsValid :
    (start k : ℕ) (m : Buddy) → 0 < start → 5 ≤ k → k ≤ 22 → IsValid (created start k m) area
unfolding blocks IsMerged
created-IsValid start k m s lo hi = record {
  base = s;
  low = lo;
  high = hi;
  size = refl;
  repr = AllFree-of _ (k - 5) 0 cleared;
  merged = tt;
  orders = tt;
  headers = tt;
  free_count = omega arith;
  used_count = omega arith;
}
  where
    same : 2 ^ (k + 1 - 5) ≡ 2 * 2 ^ (k - 5)
    same = ap (λ n. 2 ^ n) up ∙ two_pow_suc (k - 5)
      where
        up : k + 1 - 5 ≡ suc (k - 5)
        up = omega arith

    cleared : (j : ℕ) → Sub (k - 5) 0 j → (created start k m).node_state j ≡ free
    cleared j p = ground (arith, Sub-bound (k - 5) 0 j p, same)

-- Given a pool whose size rounds down to a power of two from 32 bytes to 4 MB, the manager starts
-- out valid, with that pool as one free area.
pub create_memory_manager-IsValid :
    (start bytes k : ℕ) (m : Buddy)
    → 0 < start
    → 16 ≤ bytes
    → round_down_pow2 bytes ≡ 2 ^ k
    → 5 ≤ k
    → k ≤ 22
    → (create_memory_manager start bytes m ≡ some (created start k m))
      × IsValid (created start k m) area
unfolding create_memory_manager
create_memory_manager-IsValid start bytes k m s b e lo hi = (
  ground (arith, two_pow_mono k 22 hi, exponent k (omega arith)),
  created-IsValid start k m s lo hi,
)
