-- ===== src/Shell/Line.antt =====
-- Userland/Shell/shell.c: reading a line, its `&`, and the two sides of a pipe.
-- A text is its bytes before the NUL.
pub mod Sides
use tp2_sistemas_operativos.Prelude.{
  ℕ, zero, suc, ◌+◌, List, [], ◌∷◌, Option, none, some, Bool, true, false, ◌||◌, ◌==◌,
  if◌then◌else◌, length, get_or, take, drop,
}
use tp2_sistemas_operativos.Shell.Arguments.{max_args}
use tp2_sistemas_operativos.Shell.Arguments.Fields.{fields}

abbrev pub max_buffer_size : ℕ
max_buffer_size = 1024

abbrev before : ℕ → Option (List ℕ × List ℕ) → Option (List ℕ × List ℕ)
before c none = none
before c (some (typed, rest)) = some (c ∷ typed, rest)

-- The loop that fills `buffer`, which has `room` bytes left, from the keys still to be typed. `none`
-- is a loop that waits for more of them.
unfoldable pub fill : ℕ → List ℕ → Option (List ℕ × List ℕ)
fill zero input = some ([], input)
fill (suc room) [] = none
fill (suc room) (c ∷ input) =
    let more = before c (fill room input) in if c == b'\n' then some ([], input) else more

-- `while (c != '\n') c = getchar();`
unfoldable pub skip_line : List ℕ → Option (List ℕ)
skip_line [] = none
skip_line (c ∷ input) = let more = skip_line input in if c == b'\n' then some input else more

-- The string that an array holds.
unfoldable pub c_string : List ℕ → List ℕ
c_string [] = []
c_string (c ∷ s) = let rest = c ∷ c_string s in if c == 0 then [] else rest

-- What a round of the loop reads: more than the buffer holds, nothing, or a line.
pub data Entered : Type 0 where
  overflow : Entered
  empty : Entered
  line : List ℕ → Entered

abbrev pub entered : List ℕ → Entered
entered [] = empty
entered (c ∷ s) = line (c ∷ s)

abbrev overflown : Option (List ℕ) → Option (Entered × List ℕ)
overflown none = none
overflown (some rest) = some (overflow, rest)

abbrev filled : Option (List ℕ × List ℕ) → Option (Entered × List ℕ)
filled none = none
filled (some (typed, rest)) =
    if length typed == max_buffer_size
    then overflown (skip_line rest)
    else some (entered (c_string typed), rest)

unfoldable pub read_line : List ℕ → Option (Entered × List ℕ)
unfolding fill c_string skip_line
read_line input = filled (fill max_buffer_size input)

abbrev pub is_blank : ℕ → Bool
is_blank c = c == b' ' || c == b'\t'

-- `while (len > 0 && …[len - 1] is blank) len--`
unfoldable pub trim_length : ℕ → List ℕ → ℕ
trim_length zero s = 0
trim_length (suc len) s =
    let shorter = trim_length len s in if is_blank (get_or s len 0) then shorter else suc len

unfoldable pub trim_end : ℕ → List ℕ → List ℕ
trim_end len s = take (trim_length len s) s

unfoldable pub trim_start : List ℕ → List ℕ
trim_start [] = []
trim_start (c ∷ s) = let rest = trim_start s in if is_blank c then rest else c ∷ s

-- Whether the line ends in `&`, and the line without it and the blanks in front of it.
abbrev pub take_ampersand : ℕ → List ℕ → List ℕ × Bool
take_ampersand zero s = (s, false)
take_ampersand (suc len) s = if get_or s len 0 == b'&' then (trim_end len s, true) else (s, false)

unfoldable pub strip_background : List ℕ → List ℕ × Bool
unfolding trim_end trim_length
strip_background s = take_ampersand (length s) s

-- `strchr(s, '|') - s`
abbrev one_more : Option ℕ → Option ℕ
one_more none = none
one_more (some n) = some (suc n)

unfoldable pub pipe_position : List ℕ → Option ℕ
pipe_position [] = none
pipe_position (c ∷ s) = let rest = one_more (pipe_position s) in if c == b'|' then some 0 else rest

-- The results 0, -1 and 1, the last with `left_cmd` and `right_cmd`.
pub data PipeResult : Type 0 where
  no_pipe : PipeResult
  invalid : PipeResult
  both : List ℕ → List ℕ → PipeResult

abbrev pub validated : List ℕ → List ℕ → PipeResult
validated left right = if length left == 0 || length right == 0 then invalid else both left right

abbrev pub parsed_at : List ℕ → Option ℕ → PipeResult
parsed_at s none = no_pipe
parsed_at s (some left_len) =
    validated (trim_end left_len (take left_len s)) (trim_start (drop (suc left_len) s))

unfoldable pub parse_pipe_command : List ℕ → PipeResult
unfolding trim_end trim_length trim_start pipe_position
parse_pipe_command s = parsed_at s (pipe_position s)

-- What the round of the loop does with a line.
pub data Command : Type 0 where
  bad_pipe : Command
  piped : List ℕ → List ℕ → Bool → Command
  simple : List (List ℕ) → Bool → Command

abbrev pub command_of : List ℕ → Bool → PipeResult → Command
command_of s background no_pipe = simple (take max_args (fields s)) background
command_of s background invalid = bad_pipe
command_of s background (both left right) = piped left right background

unfoldable pub read_command : List ℕ → Command
unfolding strip_background parse_pipe_command
read_command typed =
    let (s, background) = strip_background typed in command_of s background (parse_pipe_command s)
