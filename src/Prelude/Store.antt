-- ===== src/Prelude/Store.antt =====
-- Arrays and memory as functions of the index, with the update of one cell.
use Prim.Native.Nat.{ℕ}
use mathlib.Core.Path.{◌≡◌}
use mathlib.Core.Logic.{◌≢◌}
use native.Mathlib.Omega.{arith}
use tp2_sistemas_operativos.Prelude.Tests.{◌==◌, if◌then◌else◌}

abbrev pub update {ℓ} : {A : Type ℓ} → (ℕ → A) → ℕ → A → ℕ → A
update f i v j = if i == j then v else f j

module _ {ℓ} {A : Type ℓ} (f : ℕ → A) (v : A) where
  pub update_self : (i : ℕ) → update f i v i ≡ v
  update_self i = ground arith

  pub update_ne : {i j : ℕ} → i ≢ j → update f i v j ≡ f j
  update_ne h = ground arith
