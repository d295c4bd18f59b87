-- ===== src/Strings/Contents.antt =====
-- Userland/libc/string.c and Userland/tests/test_util.c: routines on the bytes of a text before its NUL.
use tp2_sistemas_operativos.Prelude.{
  ℕ, zero, suc, ◌+◌, ◌-◌, ◌*◌, ◌/◌, ◌%◌, ◌^◌, List, [], ◌∷◌, Option, none, some, Bool, true, false,
  not, ◌&&◌, ◌||◌, ltb, leb, ◌==◌, if◌then◌else◌,
}
use tp2_sistemas_operativos.Strings.{difference}

-- `strcmp(a, b) == 0`, which `strcmp_lem` shows to be equality of the texts.
unfoldable pub same_text : List ℕ → List ℕ → Bool
same_text [] [] = true
same_text [] (y ∷ ys) = false
same_text (x ∷ xs) [] = false
same_text (x ∷ xs) (y ∷ ys) = x == y && same_text xs ys

unfoldable pub toupper : ℕ → ℕ
toupper c = if leb b'a' c && leb c b'z' then c - b'a' + b'A' else c

unfoldable pub strcasecmp : List ℕ → List ℕ → ℕ
unfolding toupper
strcasecmp [] [] = difference 0 0
strcasecmp [] (y ∷ ys) = difference 0 y
strcasecmp (x ∷ xs) [] = difference x 0
strcasecmp (x ∷ xs) (y ∷ ys) =
    let rest = strcasecmp xs ys in if not (toupper x == toupper y) then difference x y else rest

-- The loop of satoi, on 64 bits.
unfoldable pub digits : ℕ → List ℕ → Option ℕ
digits res [] = some res
digits res (c ∷ s) =
    let rest = digits ((res * 10 + c - b'0') % 2 ^ 64) s in
    if ltb c b'0' || ltb b'9' c then none else rest

abbrev pub or_zero : Option ℕ → ℕ
or_zero none = 0
or_zero (some n) = n

abbrev pub negated : Option ℕ → ℕ
negated none = 0
negated (some n) = (2 ^ 64 - n) % 2 ^ 64

unfoldable pub satoi : List ℕ → ℕ
unfolding digits
satoi [] = 0
satoi (c ∷ s) = if c == b'-' then negated (digits 0 s) else or_zero (digits 0 (c ∷ s))

-- The digits of the loop of int_to_string, which writes from the last one back, in front of `out`.
unfoldable pub decimal : ℕ → ℕ → List ℕ → List ℕ
decimal zero num out = out
decimal (suc fuel) num out =
    let more = decimal fuel (num / 10) ((num % 10 + b'0') ∷ out) in if num == 0 then out else more

-- What int_to_string writes for the 32 bits of an `int` other than the lowest one, of which there is
-- no negative. Ten digits are enough.
unfoldable pub int_to_string : ℕ → List ℕ
unfolding decimal
int_to_string num =
    if num == 0
    then b'0' ∷ []
    else if leb (2 ^ 31) num
    then b'-' ∷ decimal 10 (2 ^ 32 - num) []
    else decimal 10 num []
