-- ===== src/Number/Value.antt =====
-- The value of the digits that are printed.
use tp2_sistemas_operativos.Prelude.{
  ℕ, zero, suc, ◌+◌, ◌-◌, ◌*◌, ◌/◌, ◌%◌, ◌^◌, ◌≤◌, ◌<◌, ◌≡◌, refl, sym, subst, ap, ◌∙◌, arith, List,
  [], ◌∷◌, ◌++◌, true, ltb, ◌==◌, if◌then◌else◌, Bool-cases, All, All-append, inl, inr,
}
use native.Mathlib.Nat.{mod-lt, mod-add-div, div-lt_iff_lt-mul}
use mathlib.Core.List.{reverse, reverse-cons}
use tp2_sistemas_operativos.Number.{digit, digits_from, uint_to_base}
use tp2_sistemas_operativos.Memory.Powers.{two_pow_suc}

-- What a digit's character stands for.
abbrev pub digit_value : ℕ → ℕ
digit_value c = if ltb c b'A' then c - b'0' else c - b'A' + 10

-- Digits from the last one on.
abbrev pub low_first : ℕ → List ℕ → ℕ
low_first base [] = 0
low_first base (c ∷ cs) = digit_value c + base * low_first base cs

digit_value-digit : (r : ℕ) → r < 36 → digit_value (digit r) ≡ r
digit_value-digit r h = ground arith

eq_zero : (n : ℕ) → (n == 0) ≡ true → n ≡ 0
eq_zero n e = ground arith

halves : (fuel value base : ℕ) → 2 ≤ base → value < 2 ^ suc fuel → value / base < 2 ^ fuel
halves fuel value base lo h =
    (div-lt_iff_lt-mul {k = base} {x = value} {y = 2 ^ fuel} (omega arith)).1
      (grind (arith, two_pow_suc fuel))

digits_from-value :
    (fuel value base : ℕ)
    → 2 ≤ base
    → base ≤ 36
    → value < 2 ^ fuel
    → low_first base (digits_from fuel value base) ≡ value
unfolding digits_from
digits_from-value zero value base lo hi h = omega arith
digits_from-value (suc fuel) value base lo hi h = elim (Bool-cases (value / base == 0)) [
  | inl e ↦ rw e (ap (λ d. d + base * 0) first ∙ omega (arith, mod-add-div value base, none_left e))
  | inr e ↦ rw e (
      ap (λ d. d + base * low_first base (digits_from fuel (value / base) base)) first
      ∙ ap (λ r. value % base + base * r)
          (digits_from-value fuel (value / base) base lo hi (halves fuel value base lo h))
      ∙ mod-add-div value base)
]
  where
    first : digit_value (digit (value % base)) ≡ value % base
    first = digit_value-digit (value % base) (omega (arith, mod-lt value {m = base} (omega arith)))

    none_left : (value / base == 0) ≡ true → base * (value / base) ≡ 0
    none_left e = ap (λ q. base * q) (eq_zero (value / base) e) ∙ omega arith

-- Digits from the first one on, after the value `acc`.
abbrev pub high_first : ℕ → ℕ → List ℕ → ℕ
high_first base acc [] = acc
high_first base acc (c ∷ cs) = high_first base (acc * base + digit_value c) cs

high_first-append :
    (base acc : ℕ) (xs : List ℕ) (c : ℕ)
    → high_first base acc (xs ++ (c ∷ [])) ≡ high_first base acc xs * base + digit_value c
high_first-append base acc [] c = refl
high_first-append base acc (x ∷ xs) c = high_first-append base (acc * base + digit_value x) xs c

high_first-reverse : (base : ℕ) (cs : List ℕ) → high_first base 0 (reverse cs) ≡ low_first base cs
high_first-reverse base [] = refl
high_first-reverse base (c ∷ cs) =
    ap (high_first base 0) (reverse-cons c cs)
    ∙ high_first-append base 0 (reverse cs) c
    ∙ ap (λ r. r * base + digit_value c) (high_first-reverse base cs)
    ∙ grind arith

-- `uintToBase` writes the digits of its value in the base, from the first one on: reading them back in
-- that base gives the value.
pub uint_to_base-value :
    (value base : ℕ)
    → 2 ≤ base
    → base ≤ 36
    → value < 2 ^ 64
    → high_first base 0 (uint_to_base value base) ≡ value
unfolding uint_to_base
uint_to_base-value value base lo hi h =
    high_first-reverse base (digits_from 64 value base) ∙ digits_from-value 64 value base lo hi h

-- The characters are digits.
abbrev pub IsDecimal : ℕ → Type 0
IsDecimal c = (b'0' ≤ c) × (c ≤ b'9')

All-reverse : (P : ℕ → Type 0) (cs : List ℕ) → All P cs → All P (reverse cs)
All-reverse P [] h = h
All-reverse P (c ∷ cs) h =
    subst (All P) (sym (reverse-cons c cs))
      (All-append P (reverse cs) (c ∷ []) (All-reverse P cs h.1) (h.0, _))

digits_from-IsDecimal : (fuel value : ℕ) → All IsDecimal (digits_from fuel value 10)
unfolding digits_from
digits_from-IsDecimal zero value = _
digits_from-IsDecimal (suc fuel) value = elim (Bool-cases (value / 10 == 0)) [
  | inl e ↦ rw e (decimal (value % 10) (omega arith), _)
  | inr e ↦ rw e (decimal (value % 10) (omega arith), digits_from-IsDecimal fuel (value / 10))
]
  where
    decimal : (r : ℕ) → r < 10 → IsDecimal (digit r)
    decimal r h = ground arith

pub uint_to_base-IsDecimal : (value : ℕ) → All IsDecimal (uint_to_base value 10)
unfolding uint_to_base
uint_to_base-IsDecimal value =
    All-reverse IsDecimal (digits_from 64 value 10) (digits_from-IsDecimal 64 value)

append-ne-nil : (xs : List ℕ) (c : ℕ) → (d : ℕ) × (ds : List ℕ) × (xs ++ (c ∷ []) ≡ d ∷ ds)
append-ne-nil [] c = (c, [], refl)
append-ne-nil (x ∷ xs) c = (x, xs ++ (c ∷ []), refl)

-- There is at least one digit.
pub uint_to_base-cons :
    (value base : ℕ) → (d : ℕ) × (ds : List ℕ) × (uint_to_base value base ≡ d ∷ ds)
unfolding uint_to_base digits_from
uint_to_base-cons value base =
    let more = if value / base == 0 then [] else digits_from 63 (value / base) base in
    let (d, ds, e) = append-ne-nil (reverse more) (digit (value % base)) in
    (d, ds, reverse-cons (digit (value % base)) more ∙ e)
