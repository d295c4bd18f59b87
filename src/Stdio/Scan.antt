-- ===== src/Stdio/Scan.antt =====
-- `vsscanf` of Userland/libc/stdio.c. Each pointer argument is answered by what is stored through it.
-- Behind the NUL of the buffer, where `%c` can go, there are zeros.
use tp2_sistemas_operativos.Prelude.{
  ℕ, ◌+◌, ◌-◌, ◌*◌, ◌%◌, ◌^◌, List, [], ◌∷◌, Option, none, some, Bool, true, false, ◌||◌, ◌==◌,
  if◌then◌else◌,
}
use tp2_sistemas_operativos.Stdio.Print.{is_digit}

-- A number is the 32 bits of an `int`. Characters of a string come with the place they are stored at.
pub data Stored : Type 0 where
  int : ℕ → Stored
  char : ℕ → Stored
  string : List (ℕ × ℕ) → Stored

-- The digits at the start of the buffer: the number, whether there were any, and the rest.
unfoldable pub scan_digits : ℕ → Bool → List ℕ → ℕ × Bool × List ℕ
scan_digits acc any [] = (acc, any, [])
scan_digits acc any (c ∷ cs) =
    let more = scan_digits ((acc * 10 + (c - b'0')) % 2 ^ 32) true cs in
    if is_digit c then more else (acc, any, c ∷ cs)

-- `num * (negative ? -1 : 1)` on 32 bits.
abbrev pub signed : Bool → ℕ → ℕ
signed negative v = if negative then (2 ^ 32 - v) % 2 ^ 32 else v

abbrev pub finish_int : Bool → ℕ × Bool × List ℕ → Option (Stored × ℕ) × List ℕ
finish_int negative (v, any, rest) = (some (int (signed negative v), if any then 1 else 0), rest)

-- `%d`: what is stored with what is added to the count, or nothing; and the rest of the buffer.
unfoldable pub scan_int : List ℕ → Option (Stored × ℕ) × List ℕ
scan_int [] = (none, [])
scan_int (c ∷ cs) =
    if c == b'-'
    then finish_int true (scan_digits 0 false cs)
    else if is_digit c
    then finish_int false (scan_digits 0 false (c ∷ cs))
    else (none, c ∷ cs)

-- `%s`: the pointer is moved twice for each character, which leaves a gap behind it.
unfoldable pub scan_chars : ℕ → List ℕ → List (ℕ × ℕ) × List ℕ
scan_chars i [] = ((i, 0) ∷ [], [])
scan_chars i (c ∷ cs) =
    let (stored, rest) = scan_chars (i + 2) cs in
    if c == b' ' || c == 10 then ((i, 0) ∷ [], c ∷ cs) else ((i, c) ∷ stored, rest)

abbrev pub then_store : Option (Stored × ℕ) → Option (List Stored × ℕ) → Option (List Stored × ℕ)
then_store r none = none
then_store none (some out) = some out
then_store (some (x, n)) (some (xs, m)) = some (x ∷ xs, n + m)

-- The specifier. `scan` is `vsscanf` with the rest of the format. `none`: the format ends behind a `%`.
abbrev pub scan_one : (List ℕ → Option (List Stored × ℕ)) → ℕ → List ℕ → Option (List Stored × ℕ)
scan_one scan spec buffer =
    if spec == b'd'
    then (let (r, rest) = scan_int buffer in then_store r (scan rest))
    else if spec == b'c'
    then elim buffer [
      | [] ↦ then_store (some (char 0, 1)) (scan [])
      | c ∷ cs ↦ then_store (some (char c, 1)) (scan cs)
    ]
    else if spec == b's'
    then (let (xs, rest) = scan_chars 0 buffer in then_store (some (string xs, 1)) (scan rest))
    else scan buffer

-- What is stored, in order, and the result. Characters of the format outside a specifier are skipped
-- and match nothing.
unfoldable pub vsscanf : List ℕ → List ℕ → Option (List Stored × ℕ)
vsscanf [] buffer = some ([], 0)
vsscanf (c ∷ []) buffer = if c == b'%' then none else some ([], 0)
vsscanf (c ∷ d ∷ format) buffer =
    let skipped = vsscanf (d ∷ format) buffer in
    if c == b'%' then scan_one (vsscanf format) d buffer else skipped
