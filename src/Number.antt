-- ===== src/Number.antt =====
-- Numbers printed digit by digit: `itoa` of Kernel/lib.c and `uintToBase` of Userland/libc/stdio.c.
-- The digits are produced from the last one on and then reversed in their buffer.
pub mod Value
use tp2_sistemas_operativos.Prelude.{
  ℕ, zero, suc, ◌+◌, ◌-◌, ◌/◌, ◌%◌, ◌^◌, List, [], ◌∷◌, ◌++◌, map, Option, Bool, true, false, ltb,
  leb, ◌==◌, if◌then◌else◌, length,
}
use mathlib.Core.List.{reverse}

-- `(remainder < 10) ? remainder + '0' : remainder + 'A' - 10`.
abbrev pub digit : ℕ → ℕ
digit r = if ltb r 10 then r + b'0' else r + b'A' - 10

-- `do { … } while (value /= base);` with fuel. A value has no more digits than its bits, so 64 rounds
-- are enough for any `uint64_t` (`Value`).
unfoldable pub digits_from : ℕ → ℕ → ℕ → List ℕ
digits_from zero value base = []
digits_from (suc fuel) value base =
    let rest = digits_from fuel (value / base) base in
    digit (value % base) ∷ (if value / base == 0 then [] else rest)

-- The text, whose length `uintToBase` returns.
unfoldable pub uint_to_base : ℕ → ℕ → List ℕ
uint_to_base value base = reverse (digits_from 64 value base)

-- The digits of -2^31, which has no negation: their remainders are negative.
abbrev pub below_zero : ℕ → ℕ
below_zero c = b'0' - (c - b'0')

-- `value` is the 32 bits of an `int`, which has at most 32 digits.
unfoldable pub itoa : ℕ → List ℕ
itoa value =
    if ltb value (2 ^ 31)
    then reverse (digits_from 32 value 10)
    else if value == 2 ^ 31
    then b'-' ∷ reverse (map below_zero (digits_from 32 value 10))
    else b'-' ∷ reverse (digits_from 32 (2 ^ 32 - value) 10)
