-- ===== src/Strings/Token/Scan.antt =====
-- Userland/libc/string.c: what one token of strtok is, with the space as the only delimiter.
use tp2_sistemas_operativos.Prelude.{
  ℕ, zero, suc, ◌+◌, ◌≤◌, ◌<◌, ◌≡◌, ◌⊎◌, refl, ◌∙◌, arith, List, [], ◌∷◌, some, ◌==◌, ==_ne,
  if◌then◌else◌, length, Bool-cases, inl, inr, update,
}
use tp2_sistemas_operativos.Strings.Laws.{Holds}
use tp2_sistemas_operativos.Strings.Token.{Tokens, scan, is_delimiter}

-- The text in front of the first space, and the text behind it.
abbrev pub first_word : List ℕ → List ℕ
first_word [] = []
first_word (c ∷ s) = let rest = c ∷ first_word s in if c == b' ' then [] else rest

abbrev pub behind_word : List ℕ → List ℕ
behind_word [] = []
behind_word (c ∷ s) = let rest = behind_word s in if c == b' ' then s else rest

-- The state in which the scan of `s` at `q` stops.
abbrev pub stop : (ℕ → ℕ) → ℕ → List ℕ → Tokens
stop m q [] = record { bytes = m; last = q }
stop m q (c ∷ s) =
    let rest = stop m (q + 1) s in
    if c == b' ' then record { bytes = update m q 0; last = q + 1 } else rest

pub scan-Holds :
    (fuel s1 q : ℕ) (m : ℕ → ℕ) (s : List ℕ)
    → length s < fuel
    → Holds m q s
    → scan fuel s1 (b' ' ∷ []) (record { bytes = m; last = q }) ≡ some (some s1, stop m q s)
unfolding scan is_delimiter
scan-Holds zero s1 q m s lt h = absurd (omega arith)
scan-Holds (suc fuel) s1 q m [] lt h = rw h refl
scan-Holds (suc fuel) s1 q m (c ∷ s) lt h = elim (Bool-cases (c == b' ')) [
  | inl e ↦ rw (h.0, ==_ne c 0 (λ z. absurd (omega (arith, h.1, z))), e) refl
  | inr e ↦
      rw (h.0, ==_ne c 0 (λ z. absurd (omega (arith, h.1, z))), e)
        (scan-Holds fuel s1 (q + 1) m s (omega arith) h.3)
]

-- Two memories with the same bytes from `p` up to the NUL hold the same string.
pub Holds-agree :
    (m n : ℕ → ℕ) (p : ℕ) (s : List ℕ)
    → ((x : ℕ) → p ≤ x → x ≤ p + length s → n x ≡ m x)
    → Holds m p s
    → Holds n p s
Holds-agree m n p [] same h = same p (omega arith) (omega arith) ∙ h
Holds-agree m n p (c ∷ s) same h = (
  same p (omega arith) (omega arith) ∙ h.0,
  h.1,
  h.2,
  Holds-agree m n (p + 1) s (λ x l u. same x (omega arith) (omega arith)) h.3,
)

-- It stops behind the NUL of the word, or nothing is left behind the word.
pub stop_after :
    (m : ℕ → ℕ) (q : ℕ) (s : List ℕ)
    → (behind_word s ≡ []) ⊎ (q + length (first_word s) < (stop m q s).last)
stop_after m q [] = inl refl
stop_after m q (c ∷ s) = elim (Bool-cases (c == b' ')) [
  | inl e ↦ rw e (inr (omega arith))
  | inr e ↦ rw e (elim (stop_after m (q + 1) s) [ inl z ↦ inl z | inr lt ↦ inr (omega arith) ])
]

-- Nothing in front of the start is written.
pub stop_keeps : (m : ℕ → ℕ) (q : ℕ) (s : List ℕ) (x : ℕ) → x < q → (stop m q s).bytes x ≡ m x
stop_keeps m q [] x lt = refl
stop_keeps m q (c ∷ s) x lt = ground (arith, stop_keeps m (q + 1) s x)

pub length-behind_word : (s : List ℕ) → length (behind_word s) ≤ length s
length-behind_word [] = omega arith
length-behind_word (c ∷ s) = ground (arith, length-behind_word s)
