-- ===== src/Stdio/Ansi.antt =====
-- `parseANSI` of Userland/libsys/ansiColors.c.
use tp2_sistemas_operativos.Prelude.{
  ℕ, ◌+◌, ◌-◌, ◌*◌, ◌%◌, List, [], ◌∷◌, ◌++◌, map, Option, none, some, ◌&&◌, ◌||◌, leb, ◌==◌,
  if◌then◌else◌,
}

-- `touch` is the `sys_write` of no bytes; `text_color` and `background_color` are the system calls that
-- set a colour.
pub data Event : Type 0 where
  put : ℕ → Event
  touch : Event
  text_color : ℕ → Event
  background_color : ℕ → Event

-- The code of a colour after the background's range has been moved to the text's.
abbrev pub ansi_code : ℕ → ℕ
ansi_code prop =
    if (leb 40 prop && leb prop 47) || (leb 100 prop && leb prop 107) then prop - 10 else prop

abbrev pub ansi_set : ℕ → ℕ → Event
ansi_set prop color =
    if (leb 40 prop && leb prop 47) || (leb 100 prop && leb prop 107)
    then background_color color
    else text_color color

-- The `switch` of `setANSIProp` for one colour. The case of 90 goes on with that of 91.
abbrev pub ansi_colors : ℕ → List ℕ
ansi_colors code =
    if code == 30
    then 0x00000000 ∷ []
    else if code == 31
    then 0x00DE382B ∷ []
    else if code == 32
    then 0x0039B54A ∷ []
    else if code == 33
    then 0x00FFC706 ∷ []
    else if code == 34
    then 0x00006FB8 ∷ []
    else if code == 35
    then 0x00762671 ∷ []
    else if code == 36
    then 0x002CB5E9 ∷ []
    else if code == 37
    then 0x00CCCCCC ∷ []
    else if code == 90
    then 0x00808080 ∷ 0x00FF0000 ∷ []
    else if code == 91
    then 0x00FF0000 ∷ []
    else if code == 92
    then 0x0000FF00 ∷ []
    else if code == 93
    then 0x00FFFF00 ∷ []
    else if code == 94
    then 0x000000FF ∷ []
    else if code == 95
    then 0x00FF00FF ∷ []
    else if code == 96
    then 0x0000FFFF ∷ []
    else if code == 97
    then 0x00FFFFFF ∷ []
    else []

unfoldable pub set_ansi_prop : ℕ → List Event
set_ansi_prop prop =
    if prop == 0
    then text_color 0x00FFFFFF ∷ background_color 0x00000000 ∷ []
    else map (ansi_set prop) (ansi_colors (ansi_code prop))

-- The loop up to the `m`, with the number so far in a `uint8_t`: the events and the rest of the
-- string, or `none` where the string ends before an `m`, so that the loop reads past its end.
unfoldable pub ansi_loop : ℕ → List ℕ → Option (List Event × List ℕ)
ansi_loop prop [] = none
ansi_loop prop (c ∷ cs) =
    let next =
      elim (ansi_loop (if c == b';' then 0 else (prop * 10 + (c + 256 - b'0')) % 256) cs)
        as (λ r. Option (List Event × List ℕ)) [
          | none ↦ none
          | some (es, rest) ↦ some ((if c == b';' then set_ansi_prop prop ++ es else es), rest)
        ] in
    if c == b'm' then some (set_ansi_prop prop, cs) else next

-- `cs` stands behind the escape character. `some none`: it is no escape sequence, and the position
-- stays where it is.
unfoldable pub parse_ansi : List ℕ → Option (Option (List Event × List ℕ))
parse_ansi [] = some none
parse_ansi (c ∷ []) = some none
parse_ansi (c ∷ d ∷ cs) =
    if c == b'['
    then elim (ansi_loop 0 (d ∷ cs)) [ none ↦ none | some r ↦ some (some r) ]
    else some none
