-- ===== src/Strings/Laws.antt =====
-- Userland/libc/string.c: what strlen and strcmp say of strings.
use tp2_sistemas_operativos.Prelude.{
  ℕ, zero, suc, ◌+◌, ◌<◌, ◌≡◌, ◌≢◌, ◌↔◌, refl, ap₂, arith, List, [], ◌∷◌, some, ◌==◌, ==_ne, ==_iff,
  length, Bool-cases, inl, inr,
}
use tp2_sistemas_operativos.Strings.{strlen, strcmp, difference}

-- The memory holds the bytes at `p`, none of them 0, and a NUL behind them.
abbrev pub Holds : (ℕ → ℕ) → ℕ → List ℕ → Type 0
Holds m p [] = m p ≡ 0
Holds m p (c ∷ cs) = (m p ≡ c) × (0 < c) × (c < 256) × Holds m (p + 1) cs

-- `strlen` of a string in memory is its length.
strlen-Holds :
    (fuel : ℕ) (m : ℕ → ℕ) (p : ℕ) (cs : List ℕ)
    → length cs < fuel
    → Holds m p cs
    → strlen fuel m p ≡ some (length cs)
unfolding strlen
strlen-Holds zero m p cs lt h = absurd (omega arith)
strlen-Holds (suc fuel) m p [] lt h = rw h refl
strlen-Holds (suc fuel) m p (c ∷ cs) lt h =
    rw
      (
        h.0,
        ==_ne c 0 (λ e. absurd (omega (arith, h.1))),
        strlen-Holds fuel m (p + 1) cs (omega arith) h.3,
      )
      refl

differ : (a b : ℕ) → a < 256 → b < 256 → a ≢ b → difference a b ≢ 0
differ a b h k ne e = ground arith

-- `strcmp` of two strings in memory answers, and the answer is 0 exactly when they are the same.
pub strcmp_lem :
    (fuel : ℕ) (m : ℕ → ℕ) (p q : ℕ) (xs ys : List ℕ)
    → length xs < fuel
    → Holds m p xs
    → Holds m q ys
    → (d : ℕ) × (strcmp fuel m p q ≡ some d) × ((d ≡ 0) ↔ (xs ≡ ys))
unfolding strcmp
strcmp_lem zero m p q xs ys lt h k = absurd (omega arith)
strcmp_lem (suc fuel) m p q [] [] lt h k = (0, rw (h, k) refl, ((λ e. refl), (λ e. refl)))
strcmp_lem (suc fuel) m p q [] (y ∷ ys) lt h k = (
  difference 0 y,
  rw (h, k.0) refl,
  (
    (λ e. absurd (differ 0 y (omega arith) k.2 (λ z. absurd (omega (arith, k.1, z))) e)),
    (λ e. absurd (cc e)),
  ),
)
strcmp_lem (suc fuel) m p q (x ∷ xs) [] lt h k = (
  difference x 0,
  rw (h.0, ==_ne x 0 (λ z. absurd (omega (arith, h.1))), k) refl,
  (
    (λ e. absurd (differ x 0 h.2 (omega arith) (λ z. absurd (omega (arith, h.1, z))) e)),
    (λ e. absurd (cc e)),
  ),
)
strcmp_lem (suc fuel) m p q (x ∷ xs) (y ∷ ys) lt h k = elim (Bool-cases (x == y)) [
  | inl e ↦
      let (d, run, same) = strcmp_lem fuel m (p + 1) (q + 1) xs ys (omega arith) h.3 k.3 in
      let first : x ≡ y = (==_iff x y).0 e in
      (
        d,
        rw
            (
              h.0,
              k.0,
              ==_ne x 0 (λ z. absurd (omega (arith, h.1))),
              ==_ne y 0 (λ z. absurd (omega (arith, k.1))),
              e,
            )
            run,
        ((λ z. ap₂ ◌∷◌ first (same.0 z)), (λ z. same.1 (cc z))),
      )
  | inr e ↦ (
    difference x y,
    rw
        (
          h.0,
          k.0,
          ==_ne x 0 (λ z. absurd (omega (arith, h.1))),
          ==_ne y 0 (λ z. absurd (omega (arith, k.1))),
          e,
        )
        refl,
    (
      (λ z. absurd (differ x y h.2 k.2 (λ w. absurd (cc ((==_iff x y).1 w, e))) z)),
      (λ z. let w : x ≡ y = cc z in absurd (cc ((==_iff x y).1 w, e))),
    ),
  )
]
