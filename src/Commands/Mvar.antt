-- ===== src/Commands/Mvar.antt =====
-- Userland/Shell/commands.c: mvar, which starts the writers and readers.
use tp2_sistemas_operativos.Prelude.{
  ℕ, zero, suc, ◌+◌, ◌%◌, ◌^◌, List, [], ◌∷◌, Option, none, some, Bool, false, not, ◌&&◌, ◌||◌, ltb,
  leb, ◌==◌, if◌then◌else◌, length, get_or, codes,
}
use Prim.Native.String.{String}
use tp2_sistemas_operativos.Strings.Contents.{satoi, int_to_string}
use tp2_sistemas_operativos.Calls.{
  Prog, ret, ◌>>=◌, ◌>>◌, ask, fprintf, Arg, int, get_fd, malloc, free, sem_open, create_process,
  mvar_writer, mvar_reader, int_of, minus_one,
}
use tp2_sistemas_operativos.Commands.{fds_or}

-- What mvar_wrapper writes to the fields of `MvarShared`; the counts of a semaphore are the kernel's.
pub record MvarShared : Type 0 where
  pub value : ℕ
  pub is_empty : ℕ
  pub writer_count : ℕ
  pub reader_count : ℕ
  pub sem_mutex : ℕ
  pub sem_empty : ℕ
  pub sem_full : ℕ

-- `sizeof(MvarShared)`
abbrev shared_size : ℕ
shared_size = 28

abbrev is_negative : ℕ → Bool
is_negative n = leb (2 ^ 31) n

abbrev is_positive : ℕ → Bool
is_positive n = ltb 0 n && ltb n (2 ^ 31)

abbrev say : ℕ → String → List Arg → Prog (Unit {0})
say fd format args = ask (fprintf fd format args)

abbrev checked : ℕ → String → ℕ → ℕ → Prog (Unit {0})
checked fd format i pid = if leb (2 ^ 63) pid then say fd format (int i ∷ []) else ret tt

-- `n` processes from the number `i` on.
unfoldable pub create_writers : ℕ → ℕ → ℕ × ℕ → Prog (Unit {0})
create_writers zero i fds = ret tt
create_writers (suc n) i fds = do
  pid ← create_process (codes "mvar_writer") mvar_writer 1 (((b'A' + i) ∷ []) ∷ []) 3 false fds
  checked fds.1 "Error: Could not create writer %d\n" i pid
  create_writers n (i + 1) fds

unfoldable pub create_readers : ℕ → ℕ → ℕ × ℕ → Prog (Unit {0})
unfolding int_to_string
create_readers zero i fds = ret tt
create_readers (suc n) i fds = do
  pid ← create_process (codes "mvar_reader") mvar_reader 1 (int_to_string i ∷ []) 3 false fds
  checked fds.1 "Error: Could not create reader %d\n" i pid
  create_readers n (i + 1) fds

-- The result, and `mvar_shared` where it has been set up.
abbrev fail : Prog (Unit {0}) → Prog (ℕ × Option MvarShared)
fail messages = messages >>= λ _. ret (minus_one, none)

unfoldable pub mvar_start : ℕ → ℕ → ℕ × ℕ → Prog (ℕ × Option MvarShared)
unfolding create_writers create_readers
mvar_start writers readers fds = do
  mutex ← sem_open (codes "mvar_mutex") 1
  empty ← sem_open (codes "mvar_empty") 1
  full ← sem_open (codes "mvar_full") 0
  if is_negative mutex || is_negative empty || is_negative full
      then fail (do say fds.1 "Error: Could not create semaphores\n" []; free)
      else do
        create_writers writers 0 fds
        create_readers readers 0 fds
        say fds.1 "\u{1b}[1;32m=== MVAR: All processes created and running ===\u{1b}[0m\n" []
        say fds.1
            "\u{1b}[1;33m=== Use 'ps' to see processes, 'kill <pid>' to stop them ===\u{1b}[0m\n" []
        ret (
          0,
          some (record {
            value = 0;
            is_empty = 1;
            writer_count = writers;
            reader_count = readers;
            sem_mutex = mutex;
            sem_empty = empty;
            sem_full = full;
          }),
        )

unfoldable pub mvar_counts : ℕ → ℕ → ℕ × ℕ → Prog (ℕ × Option MvarShared)
unfolding mvar_start
mvar_counts writers readers fds =
    if not (is_positive writers) || not (is_positive readers) || ltb 26 writers
    then fail (do
      say fds.1 "Error: Invalid number of writers or readers\n" []
      say fds.1 "Writers must be between 1 and 26, readers must be at least 1\n" [])
    else do
      say fds.1 "\u{1b}[1;36m=== MVAR: Starting with %d writers and %d readers ===\u{1b}[0m\n"
          (int writers ∷ int readers ∷ [])
      shared ← malloc shared_size
      if shared == 0
          then fail (say fds.1 "Error: Could not allocate shared memory\n" [])
          else mvar_start writers readers fds

abbrev word : List (List ℕ) → ℕ → List ℕ
word argv i = get_or argv i []

unfoldable pub mvar_wrapper : ℕ × ℕ → List (List ℕ) → Prog (ℕ × Option MvarShared)
unfolding mvar_counts satoi
mvar_wrapper stale argv = do
  o ← get_fd
  let fds = fds_or stale o
  if ltb (length argv) 3
      then fail (do
        say fds.1 "Usage: mvar <writers> <readers>\n" []
        say fds.1 "  writers: number of writer processes (each gets a letter A, B, C, ...)\n" []
        say fds.1 "  readers: number of reader processes (each gets a different color)\n" [])
      else mvar_counts (int_of (satoi (word argv 1))) (int_of (satoi (word argv 2))) fds

-- The start of mvar_writer: the letter, or `none` for the result -1.
unfoldable pub writer_letter : List (List ℕ) → Option MvarShared → Option ℕ
writer_letter [] shared = none
writer_letter (w ∷ ws) none = none
writer_letter (w ∷ ws) (some m) = some (get_or w 0 0)

-- `color_codes[color % 6]`, for a color that is not negative.
abbrev color_code : ℕ → String
color_code n =
    if n == 0
    then "\u{1b}[0;31m"
    else if n == 1
    then "\u{1b}[0;32m"
    else if n == 2
    then "\u{1b}[0;33m"
    else if n == 3
    then "\u{1b}[0;34m"
    else if n == 4
    then "\u{1b}[0;35m"
    else "\u{1b}[0;36m"

abbrev colored : ℕ → List (List ℕ) → Option MvarShared → Option (ℕ × String)
colored fd [] shared = none
colored fd (w ∷ ws) none = none
colored fd (w ∷ ws) (some m) = some (fd, color_code (int_of (satoi w) % 6))

-- The start of mvar_reader: its output and color, or `none` for the result -1.
unfoldable pub reader_color : ℕ × ℕ → List (List ℕ) → Option MvarShared → Prog (Option (ℕ × String))
unfolding satoi
reader_color stale argv shared = do o ← get_fd; ret (colored (fds_or stale o).1 argv shared)
