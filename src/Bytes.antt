-- ===== src/Bytes.antt =====
-- The routines on bytes of Userland/libc/string.c and Kernel/lib.c. Memory is a function of the
-- address. A length is not negative: the loops of `memmove` do nothing for a negative one.
pub mod Move
mod Tests
use tp2_sistemas_operativos.Prelude.{
  ℕ, zero, suc, ◌+◌, ◌%◌, ◌^◌, Bool, true, false, ◌&&◌, ◌||◌, ◌/◌, ◌*◌, ltb, ◌==◌, if◌then◌else◌,
  update,
}

abbrev pub Bytes : Type 0
Bytes = ℕ → ℕ

-- `for (i = 0; i < n; i++) d[i] = s[i];` with `n` rounds left.
unfoldable pub copy_forward : ℕ → ℕ → ℕ → ℕ → Bytes → Bytes
copy_forward zero i d s mem = mem
copy_forward (suc n) i d s mem = copy_forward n (i + 1) d s (update mem (d + i) (mem (s + i)))

-- `for (i = n - 1; i >= 0; i--) d[i] = s[i];`
unfoldable pub copy_backward : ℕ → ℕ → ℕ → Bytes → Bytes
copy_backward zero d s mem = mem
copy_backward (suc i) d s mem = copy_backward i d s (update mem (d + i) (mem (s + i)))

unfoldable pub memmove : ℕ → ℕ → ℕ → Bytes → Bytes
memmove d s n mem =
    if d == s || n == 0
    then mem
    else if ltb d s
    then copy_forward n 0 d s mem
    else copy_backward n d s mem

-- `while (length--) dst[length] = chr;`
unfoldable pub memset_from : ℕ → ℕ → ℕ → Bytes → Bytes
memset_from zero d c mem = mem
memset_from (suc n) d c mem = memset_from n d c (update mem (d + n) c)

unfoldable pub memset : ℕ → ℕ → ℕ → Bytes → Bytes
memset d c n mem = memset_from n d (c % 2 ^ 8) mem

-- A word is read before it is written.
abbrev pub copy_word : ℕ → ℕ → Bytes → Bytes
copy_word d s mem =
    update (update (update (update mem d (mem s)) (d + 1) (mem (s + 1))) (d + 2) (mem (s + 2)))
      (d + 3) (mem (s + 3))

-- `for (i = 0; i < n; i++) d[i] = s[i];` on words of four bytes.
unfoldable pub copy_words : ℕ → ℕ → ℕ → Bytes → Bytes
copy_words zero d s mem = mem
copy_words (suc n) d s mem = copy_words n (d + 4) (s + 4) (copy_word d s mem)

unfoldable pub memcpy : ℕ → ℕ → ℕ → Bytes → Bytes
memcpy d s n mem =
    if d % 4 == 0 && s % 4 == 0 && n % 4 == 0
    then copy_words (n / 4) d s mem
    else copy_forward n 0 d s mem
