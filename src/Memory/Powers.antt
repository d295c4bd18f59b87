-- ===== src/Memory/Powers.antt =====
-- Powers of two, as block sizes use them.
use native.Mathlib.Nat.{pow-suc}
use tp2_sistemas_operativos.Prelude.{ℕ, zero, suc, ◌-◌, ◌*◌, ◌^◌, ◌≤◌, ◌<◌, ◌≡◌, ◌∙◌, ap, arith}

pub two_pow_suc : (n : ℕ) → 2 ^ suc n ≡ 2 * 2 ^ n
two_pow_suc n = omega (arith, pow-suc 2 n)

pub two_pow_pos : (n : ℕ) → 0 < 2 ^ n
two_pow_pos zero = omega arith
two_pow_pos (suc n) = omega (arith, two_pow_suc n, two_pow_pos n)

pub two_pow_sub_suc : (m o : ℕ) → suc o ≤ m → 2 ^ (m - o) ≡ 2 * 2 ^ (m - suc o)
two_pow_sub_suc m o h = ap (λ k. 2 ^ k) step ∙ two_pow_suc (m - suc o)
  where
    step : m - o ≡ suc (m - suc o)
    step = omega arith

pub two_pow_sub_self : (m : ℕ) → 2 ^ (m - m) ≡ 1
two_pow_sub_self m = ap (λ k. 2 ^ k) zero_diff
  where
    zero_diff : m - m ≡ 0
    zero_diff = omega arith

pub two_pow_mono : (m n : ℕ) → m ≤ n → 2 ^ m ≤ 2 ^ n
two_pow_mono zero n h = two_pow_pos n
two_pow_mono (suc m) zero h = absurd (omega arith)
two_pow_mono (suc m) (suc n) h =
    omega (arith, two_pow_suc m, two_pow_suc n, two_pow_mono m n (omega arith))
