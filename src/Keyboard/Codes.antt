-- ===== src/Keyboard/Codes.antt =====
-- The table of Kernel/drivers/keyboard.c: the byte of each scan code, and the one with shift.
use tp2_sistemas_operativos.Prelude.{ℕ, List, [], ◌∷◌, Bool, true, false, get_or}

-- Keys that stand for no character have their own code.
abbrev scancode_map : List (ℕ × ℕ)
scancode_map =
    (0, 0)
    ∷ (1, 1)
    ∷ (b'1', b'!')
    ∷ (b'2', b'@')
    ∷ (b'3', b'#')
    ∷ (b'4', b'$')
    ∷ (b'5', b'%')
    ∷ (b'6', b'^')
    ∷ (b'7', b'&')
    ∷ (b'8', b'*')
    ∷ (b'9', b'(')
    ∷ (b'0', b')')
    ∷ (b'-', b'_')
    ∷ (b'=', b'+')
    ∷ (14, 14)
    ∷ (15, 15)
    ∷ (b'q', b'Q')
    ∷ (b'w', b'W')
    ∷ (b'e', b'E')
    ∷ (b'r', b'R')
    ∷ (b't', b'T')
    ∷ (b'y', b'Y')
    ∷ (b'u', b'U')
    ∷ (b'i', b'I')
    ∷ (b'o', b'O')
    ∷ (b'p', b'P')
    ∷ (b'[', b'{')
    ∷ (b']', b'}')
    ∷ (28, 28)
    ∷ (29, 29)
    ∷ (b'a', b'A')
    ∷ (b's', b'S')
    ∷ (b'd', b'D')
    ∷ (b'f', b'F')
    ∷ (b'g', b'G')
    ∷ (b'h', b'H')
    ∷ (b'j', b'J')
    ∷ (b'k', b'K')
    ∷ (b'l', b'L')
    ∷ (b';', b':')
    ∷ (b'\'', b'"')
    ∷ (b'`', b'~')
    ∷ (42, 42)
    ∷ (b'\\', b'|')
    ∷ (b'z', b'Z')
    ∷ (b'x', b'X')
    ∷ (b'c', b'C')
    ∷ (b'v', b'V')
    ∷ (b'b', b'B')
    ∷ (b'n', b'N')
    ∷ (b'm', b'M')
    ∷ (b',', b'<')
    ∷ (b'.', b'>')
    ∷ (b'/', b'?')
    ∷ (54, 54)
    ∷ (b'*', b'*')
    ∷ (56, 184)
    ∷ (b' ', b' ')
    ∷ (58, 58)
    ∷ (59, 59)
    ∷ (60, 60)
    ∷ (61, 61)
    ∷ (62, 62)
    ∷ (63, 63)
    ∷ (64, 64)
    ∷ (65, 65)
    ∷ (66, 66)
    ∷ (67, 67)
    ∷ (68, 68)
    ∷ (69, 69)
    ∷ (70, 70)
    ∷ (71, b'7')
    ∷ (72, b'8')
    ∷ (73, b'9')
    ∷ (b'-', b'-')
    ∷ (75, b'4')
    ∷ (76, b'5')
    ∷ (77, b'6')
    ∷ (b'+', b'+')
    ∷ (79, b'1')
    ∷ (80, b'2')
    ∷ (81, b'3')
    ∷ (82, b'0')
    ∷ (83, b'.')
    ∷ (0, 0)
    ∷ (0, 0)
    ∷ (b'-', b'-')
    ∷ (87, 87)
    ∷ (88, 88)
    ∷ []

abbrev shifted : Bool → ℕ × ℕ → ℕ
shifted true (plain, upper) = upper
shifted false (plain, upper) = plain

unfoldable pub character : ℕ → Bool → ℕ
character scancode shift = shifted shift (get_or scancode_map scancode (0, 0))
