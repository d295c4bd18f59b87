-- ===== src/Strings.antt =====
-- Userland/libc/string.c: strings in a memory that is a function of the address.
-- A `char` is its byte. The loops have fuel, and `none` is the end of it: a string needs one round for
-- each byte and one for its NUL.
pub mod Laws
pub mod Token
pub mod Contents
mod Tests
use tp2_sistemas_operativos.Prelude.{
  ℕ, zero, suc, ◌+◌, ◌-◌, ◌%◌, ◌^◌, Option, none, some, Bool, true, false, not, ◌&&◌, ◌||◌, ltb,
  ◌==◌, if◌then◌else◌, update,
}

abbrev pub add_one : Option ℕ → Option ℕ
add_one none = none
add_one (some n) = some (suc n)

unfoldable pub strlen : ℕ → (ℕ → ℕ) → ℕ → Option ℕ
strlen zero m p = none
strlen (suc fuel) m p =
    let rest = add_one (strlen fuel m (p + 1)) in if m p == 0 then some 0 else rest

-- A `char` as the 32 bits of an `int`, and the difference of two.
abbrev pub promoted : ℕ → ℕ
promoted c = if ltb c 128 then c else c + 2 ^ 32 - 256

abbrev pub difference : ℕ → ℕ → ℕ
difference a b = (promoted a + 2 ^ 32 - promoted b) % 2 ^ 32

unfoldable pub strcmp : ℕ → (ℕ → ℕ) → ℕ → ℕ → Option ℕ
strcmp zero m p q = none
strcmp (suc fuel) m p q =
    let rest = strcmp fuel m (p + 1) (q + 1) in
    if m p == 0 || m q == 0
    then some (difference (m p) (m q))
    else if not (m p == m q)
    then some (difference (m p) (m q))
    else rest

-- The address of the first `c`; the inner 0 is NULL. The end of the string is found for a `c` of 0.
unfoldable pub strchr : ℕ → (ℕ → ℕ) → ℕ → ℕ → Option ℕ
strchr zero m p c = none
strchr (suc fuel) m p c =
    let rest = strchr fuel m (p + 1) c in
    if m p == 0 then some (if c == 0 then p else 0) else if m p == c then some p else rest

unfoldable pub strcpy : ℕ → ℕ → ℕ → (ℕ → ℕ) → Option (ℕ → ℕ)
strcpy zero dest src m = none
strcpy (suc fuel) dest src m =
    let rest = strcpy fuel (dest + 1) (src + 1) (update m dest (m src)) in
    if m src == 0 then some (update m dest 0) else rest

-- The NUL is written only if there is room for it.
unfoldable pub strncpy : ℕ → ℕ → ℕ → (ℕ → ℕ) → ℕ → ℕ
strncpy zero dest src m = m
strncpy (suc n) dest src m =
    let rest = strncpy n (dest + 1) (src + 1) (update m dest (m src)) in
    if m src == 0 then update m dest 0 else rest
