-- ===== src/Stdio/Print.antt =====
-- `vfprintf` of Userland/libc/stdio.c, built with colours.
use tp2_sistemas_operativos.Prelude.{
  ℕ, zero, suc, ◌+◌, ◌-◌, ◌*◌, ◌%◌, ◌^◌, List, [], ◌∷◌, ◌++◌, map, Option, none, some, Bool, true,
  false, ◌&&◌, ◌||◌, ltb, leb, ◌==◌, if◌then◌else◌, length,
}
use tp2_sistemas_operativos.Number.{uint_to_base}
use tp2_sistemas_operativos.Stdio.Ansi.{Event, put, touch, parse_ansi}

-- An argument: the 64 bits of a number, or a string.
pub data Arg : Type 0 where
  num : ℕ → Arg
  text : List ℕ → Arg

pub record Flags : Type 0 where
  pub left_align : Bool
  pub zero_pad : Bool

abbrev pub parse_flags : List ℕ → Flags × List ℕ
parse_flags [] = (record { left_align = false; zero_pad = false }, [])
parse_flags (c ∷ cs) =
    if c == b'-'
    then (record { left_align = true; zero_pad = false }, cs)
    else if c == b'0'
    then (record { left_align = false; zero_pad = true }, cs)
    else (record { left_align = false; zero_pad = false }, c ∷ cs)

abbrev pub is_digit : ℕ → Bool
is_digit c = leb b'0' c && leb c b'9'

-- A width is an `int`, and stays below 2^31.
unfoldable pub parse_width : ℕ → List ℕ → ℕ × List ℕ
parse_width width [] = (width, [])
parse_width width (c ∷ cs) =
    let more = parse_width (width * 10 + (c - b'0')) cs in
    if is_digit c then more else (width, c ∷ cs)

abbrev pub parse_long : List ℕ → Bool × List ℕ
parse_long [] = (false, [])
parse_long (c ∷ cs) = if c == b'l' then (true, cs) else (false, c ∷ cs)

abbrev pub puts : List ℕ → List Event
puts = map put

-- `for (j = 0; j < n; j++) sys_write(fd, &c, 1);`
unfoldable pub fill : ℕ → ℕ → List Event
fill zero c = []
fill (suc n) c = put c ∷ fill n c

-- What is written for one conversion: `len` characters are counted for `body`.
unfoldable pub padded : Flags → ℕ → ℕ → ℕ → List Event → List Event
padded f pad width len body =
    if ltb len width
    then (if f.left_align then body ++ fill (width - len) b' ' else fill (width - len) pad ++ body)
    else body

abbrev pub pad_char : Flags → ℕ
pad_char f = if f.zero_pad then b'0' else b' '

-- `unsigned int` takes the low 32 bits of its argument.
abbrev pub low_32 : ℕ → ℕ
low_32 v = v % 2 ^ 32

-- The bits of an `int` as a `uint64_t`.
abbrev pub sign_extend : ℕ → ℕ
sign_extend v = if leb (2 ^ 31) v then v + (2 ^ 64 - 2 ^ 32) else v

-- `value = -value` on a negative `int`, and then as a `uint64_t`. -2^31 is its own negation.
abbrev pub negated : ℕ → ℕ
negated v = sign_extend (2 ^ 32 - v)

-- `%d` writes the sign before the padding.
unfoldable pub print_int : Flags → ℕ → ℕ → List Event
print_int f width v =
    if leb (2 ^ 31) v
    then put b'-'
      ∷ padded f (pad_char f) width (length (uint_to_base (negated v) 10) + 1)
          (puts (uint_to_base (negated v) 10))
    else padded f (pad_char f) width (length (uint_to_base v 10)) (puts (uint_to_base v 10))

unfoldable pub print_unsigned : Flags → ℕ → ℕ → ℕ → List Event
print_unsigned f width base v =
    padded f (pad_char f) width (length (uint_to_base v base)) (puts (uint_to_base v base))

-- `printBase` does not negate what it writes after the sign.
unfoldable pub print_base : ℕ → ℕ → List Event
print_base v base =
    if leb (2 ^ 31) v
    then put b'-' ∷ puts (uint_to_base (sign_extend v) base)
    else puts (uint_to_base v base)

-- A conversion that takes a number. `none`: the specifier takes none.
unfoldable pub print_number : Flags → ℕ → Bool → ℕ → ℕ → Option (List Event)
print_number f width long spec v =
    if spec == b'x'
    then some (print_unsigned f width 16 (if long then v else low_32 v))
    else if spec == b'd'
    then some (print_int f width (low_32 v))
    else if spec == b'u'
    then some (print_unsigned f width 10 (low_32 v))
    else if spec == b'o'
    then some (print_base (low_32 v) 8)
    else if spec == b'b'
    then some (print_base (low_32 v) 2)
    else if spec == b'c'
    then some (put (v % 2 ^ 8) ∷ [])
    else none

abbrev pub takes_number : ℕ → Bool
takes_number c = c == b'x' || c == b'd' || c == b'u' || c == b'o' || c == b'b' || c == b'c'

abbrev pub then_print : List Event → Option (List Event) → Option (List Event)
then_print es none = none
then_print es (some rest) = some (es ++ rest)

-- The specifier and what follows it. `print` is `vfprintf` with less fuel: the rest of the format and,
-- for `%s`, the string as a format of its own with no arguments. `none`: an argument is missing or of
-- the other kind.
abbrev pub convert :
    (List ℕ → List Arg → Option (List Event))
    → Flags
    → ℕ
    → Bool
    → List ℕ
    → List Arg
    → Option (List Event)
convert print f width long [] args = none
convert print f width long (c ∷ cs) [] =
    if c == b'%'
    then then_print (put b'%' ∷ []) (print cs [])
    else if takes_number c || c == b's'
    then none
    else print cs []
convert print f width long (c ∷ cs) (num v ∷ args) =
    if takes_number c
    then elim (print_number f width long c v) [
      | none ↦ none
      | some es ↦ then_print es (print cs args)
    ]
    else if c == b's'
    then none
    else if c == b'%'
    then then_print (put b'%' ∷ []) (print cs (num v ∷ args))
    else print cs (num v ∷ args)
convert print f width long (c ∷ cs) (text s ∷ args) =
    if c == b's'
    then elim (print s []) [
      | none ↦ none
      | some body ↦ then_print (padded f b' ' width (length s) body) (print cs args)
    ]
    else if takes_number c
    then none
    else if c == b'%'
    then then_print (put b'%' ∷ []) (print cs (text s ∷ args))
    else print cs (text s ∷ args)

-- The escape character and what follows it. A sequence that `parseANSI` does not take is met again and
-- again.
abbrev pub escape :
    (List ℕ → List Arg → Option (List Event)) → List ℕ → List Arg → Option (List Event)
escape print cs args = elim (parse_ansi cs) [
  | none ↦ none
  | some none ↦ then_print (touch ∷ []) (print (27 ∷ cs) args)
  | some (some (es, rest)) ↦ then_print (touch ∷ es) (print rest args)
]

abbrev pub percent :
    (List ℕ → List Arg → Option (List Event)) → List ℕ → List Arg → Option (List Event)
percent print cs args =
    let (f, afterFlags) = parse_flags cs in
    let (width, afterWidth) = parse_width 0 afterFlags in
    let (long, rest) = parse_long afterWidth in convert print f width long rest args

-- `vfprintf` with fuel; `none` is also a run out of it, which a sequence that is met again and again
-- brings about with any fuel.
unfoldable pub vfprintf : ℕ → List ℕ → List Arg → Option (List Event)
vfprintf zero format args = none
vfprintf (suc fuel) [] args = some []
vfprintf (suc fuel) (c ∷ cs) args =
    if c == 27
    then escape (vfprintf fuel) cs args
    else if c == b'%'
    then percent (vfprintf fuel) cs args
    else then_print (put c ∷ []) (vfprintf fuel cs args)
