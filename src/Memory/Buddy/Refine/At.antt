-- ===== src/Memory/Buddy/Refine/At.antt =====
-- Which part of the pool a node covers, and `idx_to_offset` of Kernel/memory/buddyManager.c.
use tp2_sistemas_operativos.Prelude.{ℕ, suc, ◌+◌, ◌-◌, ◌*◌, ◌^◌, ◌≤◌, ◌≡◌, sym, ap, ◌∙◌, arith}
use tp2_sistemas_operativos.Memory.Powers.{
  two_pow_suc, two_pow_pos, two_pow_sub_suc, two_pow_sub_self,
}
use tp2_sistemas_operativos.Memory.Buddy.{idx_to_offset}

-- The node `idx` at the level of `order` covers the pool from the offset `start`.
pub record At (m order idx start : ℕ) : Type 0 where
  pub pos : ℕ
  pub index : idx + 1 ≡ 2 ^ (m - order) + pos
  pub offset : start ≡ pos * 2 ^ order

pub At-offset : (m order idx start : ℕ) → At m order idx start → idx_to_offset m idx order ≡ start
unfolding idx_to_offset
At-offset m order idx start a = ap (λ k. k * 2 ^ order) fits ∙ sym a.offset
  where
    fits : idx - (2 ^ (m - order) - 1) ≡ a.pos
    fits = omega (arith, a.index, two_pow_pos (m - order))

pub At-left : (m o idx start : ℕ) → suc o ≤ m → At m (suc o) idx start → At m o (2 * idx + 1) start
At-left m o idx start le a = record {
  pos = 2 * a.pos;
  index = omega (arith, two_pow_sub_suc m o le);
  offset = omega (arith, ap (λ k. a.pos * k) (two_pow_suc o));
}

pub At-right :
    (m o idx start : ℕ)
    → suc o ≤ m
    → At m (suc o) idx start
    → At m o (2 * idx + 1 + 1) (start + 2 ^ o)
At-right m o idx start le a = record {
  pos = 2 * a.pos + 1;
  index = omega (arith, two_pow_sub_suc m o le);
  offset = omega (arith, ap (λ k. a.pos * k) (two_pow_suc o));
}

pub At-root : (m : ℕ) → At m m 0 0
At-root m = record { pos = 0; index = omega (arith, two_pow_sub_self m); offset = omega arith }
