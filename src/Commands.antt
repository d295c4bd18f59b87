-- ===== src/Commands.antt =====
-- Userland/Shell/commands.c: the programs that the shell starts.
pub mod Run
pub mod Vowels
pub mod WordCount
pub mod Counter
pub mod Mvar
pub mod MvarSteps
mod Tests
use tp2_sistemas_operativos.Prelude.{
  ℕ, zero, suc, ◌+◌, ◌-◌, ◌/◌, ◌%◌, ◌^◌, List, [], ◌∷◌, ◌++◌, Option, none, some, Bool, true, false,
  not, ◌&&◌, ◌||◌, leb, ◌==◌, if◌then◌else◌, codes,
}
use tp2_sistemas_operativos.Calls.{
  Prog, ret, ◌>>=◌, ◌>>◌, int, printf, get_fd, read_byte, write, close_fd, int_of,
}

-- `int fds[2]; getFD(fds);`, where `stale` is what the array holds if the call fails.
abbrev pub fds_or : ℕ × ℕ → Option (ℕ × ℕ) → ℕ × ℕ
fds_or stale none = stale
fds_or stale (some fds) = fds

abbrev pub one_of : List ℕ → ℕ → Bool
one_of [] c = false
one_of (v ∷ vs) c = c == v || one_of vs c

unfoldable pub is_vowel : ℕ → Bool
is_vowel c = one_of (codes "aeiouAEIOU") c

-- The reading loops have fuel, and `false` is the end of it.
unfoldable pub filter_loop : ℕ → ℕ × ℕ → Prog Bool
filter_loop zero fds = ret false
filter_loop (suc fuel) fds = read_byte fds.0 >>= λ o. elim o [
  | none ↦ ret true
  | some c ↦ (if is_vowel c then ret 0 else write fds.1 (c ∷ [])) >>= λ _. filter_loop fuel fds
]

abbrev pub finish : Bool → Prog (Option ℕ) → Prog (Option ℕ)
finish true p = p
finish false p = ret none

-- The results 0 and 1; `none` is a loop that is out of fuel.
unfoldable pub filter_wrapper : ℕ → ℕ × ℕ → Prog (Option ℕ)
unfolding filter_loop
filter_wrapper fuel stale = do
  o ← get_fd
  done ← filter_loop fuel (fds_or stale o)
  finish done (do close_fd (fds_or stale o).0; close_fd (fds_or stale o).1; ret (some 0))

unfoldable pub cat_loop : ℕ → ℕ × ℕ → Prog Bool
cat_loop zero fds = ret false
cat_loop (suc fuel) fds = read_byte fds.0 >>= λ o. elim o [
  | none ↦ ret true
  | some c ↦ write fds.1 (c ∷ []) >>= λ _. cat_loop fuel fds
]

unfoldable pub cat_wrapper : ℕ → ℕ × ℕ → Prog (Option ℕ)
unfolding cat_loop
cat_wrapper fuel stale = do
  o ← get_fd
  done ← cat_loop fuel (fds_or stale o)
  finish done (do close_fd (fds_or stale o).1; ret (some 0))
