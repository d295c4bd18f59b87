-- ===== src/Commands/WordCount.antt =====
-- Userland/Shell/commands.c: wc.
pub mod Counting
use tp2_sistemas_operativos.Prelude.{
  ℕ, zero, suc, ◌+◌, ◌%◌, ◌^◌, List, [], ◌∷◌, Option, none, some, Bool, true, false, ◌||◌, ◌==◌,
  if◌then◌else◌, codes,
}
use tp2_sistemas_operativos.Calls.{
  Prog, ret, ◌>>=◌, ◌>>◌, int, printf, get_fd, read_byte, write, close_fd,
}
use tp2_sistemas_operativos.Strings.Contents.{int_to_string}
use tp2_sistemas_operativos.Commands.{fds_or}

pub record Shown : Type 0 where
  pub lines : Bool
  pub words : Bool
  pub chars : Bool
  pub all : Bool

abbrev pub nothing : Shown
nothing = record { lines = false; words = false; chars = false; all = true }

unfoldable pub invalid_option : ℕ → Prog (Option Shown)
invalid_option c = do
  printf "wc: invalid option -- '%c'\n" (int c ∷ [])
  printf "Usage: wc [-l] [-w] [-c]\n" []
  ret none

-- The letters of one word; `none` is an invalid one.
unfoldable pub option_letters : List ℕ → Shown → Prog (Option Shown)
unfolding invalid_option
option_letters [] o = ret (some o)
option_letters (c ∷ s) o =
    let lines = option_letters s (record o { lines = true }) in
    let words = option_letters s (record o { words = true }) in
    let chars = option_letters s (record o { chars = true }) in
    if c == b'l'
    then lines
    else if c == b'w'
    then words
    else if c == b'c'
    then chars
    else invalid_option c

unfoldable pub option_word : List ℕ → Shown → Prog (Option Shown)
unfolding option_letters
option_word [] o = ret (some o)
option_word (c ∷ s) o =
    if c == b'-' then option_letters s (record o { all = false }) else ret (some o)

unfoldable pub option_words : List (List ℕ) → Shown → Prog (Option Shown)
unfolding option_word
option_words [] o = ret (some o)
option_words (w ∷ ws) o =
    option_word w o >>= λ r. elim r [ none ↦ ret none | some o' ↦ option_words ws o' ]

abbrev tail_of : List (List ℕ) → List (List ℕ)
tail_of [] = []
tail_of (w ∷ ws) = ws

pub record Counts : Type 0 where
  pub lines : ℕ
  pub words : ℕ
  pub chars : ℕ
  pub in_word : Bool

abbrev pub no_counts : Counts
no_counts = record { lines = 0; words = 0; chars = 0; in_word = false }

-- `++` on an `int`.
abbrev pub inc : ℕ → ℕ
inc n = (n + 1) % 2 ^ 32

abbrev pub end_word : Counts → Counts
end_word n = if n.in_word then record n { words = inc n.words; in_word = false } else n

unfoldable pub count_byte : ℕ → Counts → Counts
count_byte c n =
    let m = record n { chars = inc n.chars } in
    if c == b'\n'
    then end_word (record m { lines = inc m.lines })
    else if c == b' ' || c == b'\t' || c == b'\r'
    then end_word m
    else record m { in_word = true }

-- `none` is the end of the fuel.
unfoldable pub wc_loop : ℕ → ℕ × ℕ → Counts → Prog (Option Counts)
unfolding count_byte
wc_loop zero fds n = ret none
wc_loop (suc fuel) fds n = read_byte fds.0 >>= λ o. elim o [
  | none ↦ ret (some n)
  | some c ↦ wc_loop fuel fds (count_byte c n)
]

-- A count and its name, where it is shown.
unfoldable pub show : Bool → ℕ → ℕ → List ℕ → Prog (Unit {0})
unfolding int_to_string
show false fd n name = ret tt
show true fd n name = do write fd (int_to_string n); write fd name; ret tt

unfoldable pub wc_print : Shown → ℕ × ℕ → Counts → Prog (Option ℕ)
unfolding show
wc_print o fds n = do
  show (o.lines || o.all) fds.1 n.lines (codes " lineas\n")
  show (o.words || o.all) fds.1 n.words (codes " palabras\n")
  show (o.chars || o.all) fds.1 n.chars (codes " caracteres\n")
  close_fd fds.0
  close_fd fds.1
  ret (some 0)

unfoldable pub wc_counted : Shown → ℕ × ℕ → Option Counts → Prog (Option ℕ)
unfolding wc_print
wc_counted o fds none = ret none
wc_counted o fds (some n) = wc_print o fds (end_word n)

unfoldable pub wc_read : ℕ → ℕ × ℕ → Option Shown → Prog (Option ℕ)
unfolding wc_counted wc_loop
wc_read fuel stale none = ret (some 1)
wc_read fuel stale (some o) = do
  fds ← get_fd
  n ← wc_loop fuel (fds_or stale fds) no_counts
  wc_counted o (fds_or stale fds) n

unfoldable pub wc_wrapper : ℕ → ℕ × ℕ → List (List ℕ) → Prog (Option ℕ)
unfolding option_words wc_read
wc_wrapper fuel stale argv = option_words (tail_of argv) nothing >>= wc_read fuel stale
