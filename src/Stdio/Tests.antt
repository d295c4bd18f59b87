-- ===== src/Stdio/Tests.antt =====
-- Formatted output and input on concrete strings.
use tp2_sistemas_operativos.Prelude.{◌^◌, ◌-◌, ◌≡◌, refl, arith, [], ◌∷◌, some}
use tp2_sistemas_operativos.Number.{uint_to_base, digits_from}
use tp2_sistemas_operativos.Stdio.Ansi.{
  put, touch, text_color, background_color, parse_ansi, ansi_loop, set_ansi_prop,
}
use tp2_sistemas_operativos.Stdio.Print.{
  num, vfprintf, puts, parse_width, print_number, print_int, padded, fill,
}
use tp2_sistemas_operativos.Stdio.Scan.{int, vsscanf}
use tp2_sistemas_operativos.Stdio.Laws.{decimal, vsscanf-vfprintf}

-- -5 and back.
vsscanf-vfprintf_example :
    (vfprintf 2 (b'%' ∷ b'd' ∷ []) (num (2 ^ 32 - 5) ∷ []) ≡ some (puts (decimal (2 ^ 32 - 5))))
    × (vsscanf (b'%' ∷ b'd' ∷ []) (decimal (2 ^ 32 - 5)) ≡ some (int (2 ^ 32 - 5) ∷ [], 1))
vsscanf-vfprintf_example = vsscanf-vfprintf (2 ^ 32 - 5) 0 (omega arith) (omega arith)

-- "%5d" of -3: the sign comes before the padding.
sign_first :
    vfprintf 4 (b'%' ∷ b'5' ∷ b'd' ∷ []) (num (2 ^ 32 - 3) ∷ [])
    ≡ some (puts (b'-' ∷ b' ' ∷ b' ' ∷ b' ' ∷ b'3' ∷ []))
unfolding vfprintf parse_width print_number print_int padded fill uint_to_base digits_from
sign_first = refl

-- Red text.
red :
    vfprintf 4 (27 ∷ b'[' ∷ b'0' ∷ b';' ∷ b'3' ∷ b'1' ∷ b'm' ∷ b'!' ∷ []) []
    ≡ some (touch ∷ text_color 0xFFFFFF ∷ background_color 0 ∷ text_color 0xDE382B ∷ put b'!' ∷ [])
unfolding vfprintf parse_ansi ansi_loop set_ansi_prop
red = refl
