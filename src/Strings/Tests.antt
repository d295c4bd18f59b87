-- ===== src/Strings/Tests.antt =====
-- "ab" at 10 and "aZ" at 20.
use tp2_sistemas_operativos.Prelude.{
  ℕ, ◌≡◌, ◌↔◌, refl, arith, List, [], ◌∷◌, some, ◌==◌, if◌then◌else◌,
}
use tp2_sistemas_operativos.Strings.{strlen, strcmp, strchr}
use tp2_sistemas_operativos.Strings.Laws.{strcmp_lem}

abbrev memory : ℕ → ℕ
memory a =
    if a == 10
    then b'a'
    else if a == 11
    then b'b'
    else if a == 20
    then b'a'
    else if a == 21
    then b'Z'
    else 0

found : strchr 9 memory 20 b'Z' ≡ some 21
unfolding strchr
found = refl

measured : strlen 9 memory 10 ≡ some 2
unfolding strlen
measured = refl

strcmp_example :
    (d : ℕ) × (strcmp 3 memory 10 20 ≡ some d)
    × ((d ≡ 0) ↔ (◌≡◌ {A = List ℕ} (b'a' ∷ b'b' ∷ []) (b'a' ∷ b'Z' ∷ [])))
strcmp_example =
    strcmp_lem 3 memory 10 20 (b'a' ∷ b'b' ∷ []) (b'a' ∷ b'Z' ∷ []) (omega arith)
      (refl, (omega arith), (omega arith), (refl, (omega arith), (omega arith), refl))
      (refl, (omega arith), (omega arith), (refl, (omega arith), (omega arith), refl))
