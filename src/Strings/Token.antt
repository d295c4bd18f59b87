-- ===== src/Strings/Token.antt =====
-- Userland/libc/string.c: strtok, over a memory that is a function of the address.
pub mod Scan
use tp2_sistemas_operativos.Prelude.{
  ℕ, zero, suc, ◌+◌, List, [], ◌∷◌, Option, none, some, Bool, true, false, ◌==◌, if◌then◌else◌,
  update,
}

-- The memory, and the static variable `last` of strtok.
pub record Tokens : Type 0 where
  pub bytes : ℕ → ℕ
  pub last : ℕ

unfoldable pub is_delimiter : ℕ → List ℕ → Bool
is_delimiter c [] = false
is_delimiter c (d ∷ ds) = let rest = is_delimiter c ds in if c == d then true else rest

-- The loop of strtok, which has fuel: `none` is its end. The inner `none` is NULL.
unfoldable pub scan : ℕ → ℕ → List ℕ → Tokens → Option (Option ℕ × Tokens)
scan zero s1 s2 t = none
scan (suc fuel) s1 s2 t =
    let rest = scan fuel s1 s2 (record t { last = t.last + 1 }) in
    if t.bytes t.last == 0
    then some (some s1, t)
    else if is_delimiter (t.bytes t.last) s2
    then some (some s1, record t { bytes = update t.bytes t.last 0; last = t.last + 1 })
    else rest

-- `s1` is `none` for a NULL.
unfoldable pub strtok : ℕ → Option ℕ → List ℕ → Tokens → Option (Option ℕ × Tokens)
strtok fuel (some s1) s2 t = scan fuel s1 s2 (record t { last = s1 })
strtok fuel none s2 t = if t.bytes t.last == 0 then some (none, t) else scan fuel t.last s2 t
