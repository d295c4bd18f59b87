-- ===== src/Bytes/Tests.antt =====
-- Copies within a memory where each byte holds its address.
use tp2_sistemas_operativos.Prelude.{◌≡◌}
use tp2_sistemas_operativos.Bytes.{Bytes, memmove}
use tp2_sistemas_operativos.Bytes.Move.{memmove_lem}

abbrev addresses : Bytes
addresses a = a

-- Five bytes to two addresses further on, so that the two ranges overlap.
memmove_example : memmove 12 10 5 addresses 15 ≡ 13
memmove_example = memmove_lem 12 10 5 addresses 15
