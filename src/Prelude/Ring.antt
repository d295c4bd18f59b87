-- ===== src/Prelude/Ring.antt =====
-- An array of `size` cells that is read going round at its end.
use Prim.Native.Nat.{ℕ, zero, suc, ◌+◌, ◌%◌, ◌<◌}
use mathlib.Core.Path.{◌≡◌, refl, sym, ap, ap₂, subst}
use mathlib.Core.Logic.{◌≢◌}
use mathlib.Core.List.{List, [], ◌∷◌, ◌++◌}
use native.Mathlib.Omega.{arith}
use tp2_sistemas_operativos.Prelude.Lists.{length}
use tp2_sistemas_operativos.Prelude.Store.{update, update_self, update_ne}

-- The `n` values from `pos` on.
abbrev pub bytes_from : ℕ → (ℕ → ℕ) → ℕ → ℕ → List ℕ
bytes_from size buf pos zero = []
bytes_from size buf pos (suc n) = buf pos ∷ bytes_from size buf ((pos + 1) % size) n

-- What `%` does at one size, which `omega arith` proves at a numeral.
pub record IsSize (size : ℕ) : Type 0 where
  pub below : (x : ℕ) → x % size < size
  pub start : (pos : ℕ) → pos < size → (pos + 0) % size ≡ pos
  pub further : (pos n : ℕ) → (pos + suc n) % size ≡ ((pos + 1) % size + n) % size
  pub apart : (pos n : ℕ) → pos < size → suc n < size → (pos + suc n) % size ≢ pos

-- A value behind the last one is new, and leaves the others as they are.
pub bytes_from-update :
    (size : ℕ) (buf : ℕ → ℕ) (c pos n : ℕ)
    → IsSize size
    → pos < size
    → n < size
    → bytes_from size (update buf ((pos + n) % size) c) pos (suc n)
      ≡ bytes_from size buf pos n ++ c ∷ []
bytes_from-update size buf c pos zero ring h m =
    ap (λ b. b ∷ [])
      (subst (λ p. update buf ((pos + 0) % size) c p ≡ c) (ring.start pos h)
        (update_self buf c ((pos + 0) % size)))
bytes_from-update size buf c pos (suc n) ring h m =
    ap₂ ◌∷◌ (update_ne buf c (ring.apart pos n h m)) (
      subst
        (λ w.
          bytes_from size (update buf w c) ((pos + 1) % size) (suc n)
          ≡ bytes_from size buf ((pos + 1) % size) n ++ c ∷ [])
        (sym (ring.further pos n))
        (bytes_from-update size buf c ((pos + 1) % size) n ring (ring.below (pos + 1))
          (omega arith)))

pub length-bytes_from :
    (size : ℕ) (buf : ℕ → ℕ) (pos n : ℕ) → length (bytes_from size buf pos n) ≡ n
length-bytes_from size buf pos zero = refl
length-bytes_from size buf pos (suc n) = ap suc (length-bytes_from size buf ((pos + 1) % size) n)
