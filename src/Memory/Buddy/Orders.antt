-- ===== src/Memory/Buddy/Orders.antt =====
-- `size_to_order` of Kernel/memory/buddyManager.c: the block order for a request.
use native.Mathlib.Decide.{dec_lt}
use tp2_sistemas_operativos.Prelude.{
  ℕ, zero, suc, ◌+◌, ◌-◌, ◌%◌, ◌^◌, ◌≤◌, ◌<◌, ◌≡◌, inl, inr, refl, ap, arith, some, Bool-cases, ltb,
  true, false, subst,
}
use tp2_sistemas_operativos.Memory.Powers.{two_pow_mono}
use tp2_sistemas_operativos.Memory.Align.{align, u32_mod}
use tp2_sistemas_operativos.Memory.Buddy.{order_from, at_least_min, size_to_order}

-- The loop stops at the first order from `ord` on that holds `need` bytes.
pub record Least (ord need order : ℕ) : Type 0 where
  pub from : ord ≤ order
  pub fits : need ≤ 2 ^ order
  pub least : (k : ℕ) → ord ≤ k → k < order → 2 ^ k < need

ltb→lt : (a b : ℕ) → ltb a b ≡ true → a < b
ltb→lt a b h = ground arith

below :
    (ord need k order : ℕ)
    → 2 ^ ord < need
    → Least (ord + 1) need order
    → ord ≤ k
    → k < order
    → 2 ^ k < need
below ord need k order first l a b = elim (dec_lt ord k) [
  | yes later ↦ l.least k (omega arith) b
  | no here ↦ subst (λ j. 2 ^ j < need) (equal here) first
]
  where
    equal : (ord < k → ⊥) → ord ≡ k
    equal no_later = omega arith

pub order_from-Least :
    (fuel ord need top : ℕ)
    → top ≡ ord + fuel
    → need ≤ 2 ^ top
    → (order : ℕ) × (order_from (suc fuel) ord need ≡ some order) × Least ord need order
unfolding order_from
order_from-Least zero ord need top t h = (
  ord,
  rw done refl,
  record { from = omega arith; fits = enough; least = λ k a b. absurd (omega arith) },
)
  where
    enough : need ≤ 2 ^ ord
    enough = omega (arith, ap (λ k. 2 ^ k) same)
      where
        same : top ≡ ord
        same = omega arith

    done : ltb (2 ^ ord) need ≡ false
    done = ground (arith, enough)
order_from-Least (suc fuel) ord need top t h = elim (Bool-cases (ltb (2 ^ ord) need)) [
  | inl more ↦
      let (order, e, l) = order_from-Least fuel (ord + 1) need top (omega arith) h in
      (
        order,
        rw more e,
        record {
          from = omega (arith, l.from);
          fits = l.fits;
          least = λ k a b. below ord need k order (ltb→lt _ _ more) l a b;
        },
      )
  | inr done ↦ (
    ord,
    rw done refl,
    record { from = omega arith; fits = ground arith; least = λ k a b. absurd (omega arith) },
  )
]

at_least_five : (order : ℕ) → 24 ≤ 2 ^ order → 5 ≤ order
at_least_five order h = elim (dec_lt order 5) [
  | yes small ↦ absurd (omega (arith, two_pow_mono order 4 (omega arith)))
  | no large ↦ omega arith
]

not_small : (order : ℕ) → 5 ≤ order → ltb (2 ^ order) 16 ≡ false
not_small order h = ground (arith, two_pow_mono 5 order h)

size_to_order-eq :
    (size order : ℕ)
    → order_from 32 0 ((align size + 8) % u32_mod) ≡ some order
    → ltb (2 ^ order) 16 ≡ false
    → size_to_order size ≡ some order
unfolding size_to_order at_least_min
size_to_order-eq size order e small = ground arith

-- A request of 9 to 2^31 - 16 bytes gets the least order from 5 on that holds it and its header.
pub size_to_order-Least :
    (size : ℕ)
    → 8 < size
    → size ≤ 2 ^ 31 - 16
    → (order : ℕ) × (size_to_order size ≡ some order)
      × (5 ≤ order)
      × (size + 8 ≤ 2 ^ order)
      × ((k : ℕ) → k < order → 2 ^ k < size + 16)
size_to_order-Least size lo hi =
    let (order, e, l) =
      order_from-Least 31 0 ((align size + 8) % u32_mod) 31 (omega arith) (omega arith) in
    let large : 5 ≤ order = at_least_five order (omega (arith, l.fits)) in
    (
      order,
      size_to_order-eq size order e (not_small order large),
      large,
      omega (arith, l.fits),
      λ k h. omega (arith, l.least k (omega arith) h),
    )
