-- ===== src/Shell/Execute.antt =====
-- Userland/Shell/shell.c: execute_command, execute_pipe and a round of the loop of main.
pub mod Demand
pub mod Guards
pub mod Own
pub mod Spares
use Prim.Native.String.{String}
use tp2_sistemas_operativos.Prelude.{
  ℕ, ◌+◌, ◌-◌, ◌^◌, List, [], ◌∷◌, Option, none, some, Bool, true, false, not, ◌&&◌, ◌||◌, leb,
  ◌==◌, if◌then◌else◌, length, take, codes,
}
use tp2_sistemas_operativos.Calls.{
  Prog, ret, ◌>>=◌, ◌>>◌, int, str, printf, fd_stdin, fd_stdout, get_fd, create_process, wait, kill,
  clear_input_buffer, open_pipe, close_fd, int_of, minus_one,
}
use tp2_sistemas_operativos.Shell.Arguments.{max_args}
use tp2_sistemas_operativos.Shell.Arguments.Fields.{fields}
use tp2_sistemas_operativos.Shell.Line.{
  Command, bad_pipe, piped, simple, read_command, Entered, overflow, empty, line,
}
use tp2_sistemas_operativos.Shell.Table.{
  Builtin, clear, echo, font, help, man, ps, mem, kill_cmd, block_cmd, nice_cmd, Spawn, Handler,
  builtin, process, Entry, find_command,
}
use tp2_sistemas_operativos.Shell.Builtins
use tp2_sistemas_operativos.Shell.Builtins.{error}
use tp2_sistemas_operativos.Shell.Builtins.Processes

unfoldable pub run_builtin : Builtin → List (List ℕ) → Prog ℕ
run_builtin clear argv = Builtins.clear
run_builtin echo argv = Builtins.echo argv
run_builtin font argv = Builtins.font argv
run_builtin help argv = Builtins.help
run_builtin man argv = Builtins.man argv
run_builtin ps argv = Builtins.ps
run_builtin mem argv = Builtins.mem
run_builtin kill_cmd argv = Processes.kill_cmd argv
run_builtin block_cmd argv = Processes.block_cmd argv
run_builtin nice_cmd argv = Processes.nice_cmd argv

abbrev pub is_negative : ℕ → Bool
is_negative n = leb (2 ^ 31) n

abbrev ground_name : Bool → String
ground_name true = "background"
ground_name false = "foreground"

abbrev pub inherited : Option (ℕ × ℕ) → ℕ × ℕ
inherited none = (0, 1)
inherited (some fds) = fds

-- The process runs, and the shell waits for it unless it is in the background.
unfoldable pub follow : String → Bool → ℕ → Prog ℕ
follow name is_background pid =
    if is_negative pid
    then (do
      error "\u{1b}[0;31mError: Could not create process for '%s'\u{1b}[0m\n"
          (str (codes name) ∷ [])
      ret minus_one)
    else do
      printf "Process '%s' created with PID: %d (%s)\n"
          (str (codes name) ∷ int pid ∷ str (codes (ground_name is_background)) ∷ [])
      if is_background then ret 0 else do
        status ← wait pid
        clear_input_buffer
        printf "\u{1b}[0;32mProcess '%s' (PID %d) completed with status: %d\u{1b}[0m\n"
            (str (codes name) ∷ int pid ∷ int status ∷ [])
        ret 0

-- Whether the command may run in the background, after the warning where it may not.
unfoldable pub warned : String → Spawn → Bool → Prog Bool
warned name s run_in_background =
    if run_in_background && not s.allow_background
    then (do
      error
          "\u{1b}[0;33mWarning: '%s' cannot run in background (requires user input).\nRunning in foreground.\u{1b}[0m\n"
          (str (codes name) ∷ [])
      ret false)
    else ret run_in_background

unfoldable pub start : String → Spawn → List (List ℕ) → Bool → Prog ℕ
unfolding follow
start name s argv run_in_background =
    let is_background = run_in_background || s.is_background in
    do
      fds ← get_fd
      pid ←
          create_process (codes name) s.entrypoint (length argv) argv s.priority (not is_background)
            (inherited fds)
      follow name is_background (int_of pid)

unfoldable pub handle : Handler → String → List (List ℕ) → Bool → Prog ℕ
unfolding run_builtin warned start
handle (builtin b) name argv run_in_background = run_builtin b argv
handle (process s) name argv run_in_background = do
  background ← warned name s run_in_background
  start name s argv background

unfoldable pub execute_command : Entry → List (List ℕ) → Bool → Prog ℕ
unfolding handle
execute_command cmd argv run_in_background = handle cmd.handler cmd.name argv run_in_background

abbrev fail : Prog (Unit {0}) → Prog ℕ
fail message = message >>= λ _. ret minus_one

unfoldable pub close_both : ℕ × ℕ → Prog ℕ
close_both (r, w) = do close_fd r; close_fd w; ret minus_one

-- The right process, which is in the background, and the wait for the left one.
unfoldable pub join_right : String → ℕ × ℕ → Bool → ℕ → ℕ → Prog ℕ
unfolding close_both
join_right name pipe_fds left_is_background left_pid right_pid =
    if is_negative right_pid
    then (do
      error "\u{1b}[0;31mError: Could not create right process '%s'\u{1b}[0m\n"
          (str (codes name) ∷ [])
      kill left_pid
      close_both pipe_fds)
    else if left_is_background
    then ret 0
    else do wait left_pid; clear_input_buffer; ret 0

-- A side of the pipe: the entry of its command, its handler and its arguments.
pub record Side : Type 0 where
  pub name : String
  pub spawn : Spawn
  pub argv : List (List ℕ)

abbrev pub create_side : Side → Bool → ℕ × ℕ → Prog ℕ
create_side s foreground fds =
    create_process (codes s.name) s.spawn.entrypoint (length s.argv) s.argv s.spawn.priority
      foreground fds

unfoldable pub start_right : Side → ℕ × ℕ → Bool → ℕ → Prog ℕ
unfolding join_right
start_right right pipe_fds left_is_background left_pid = do
  right_pid ← create_side right false (pipe_fds.0, fd_stdout)
  join_right right.name pipe_fds left_is_background left_pid (int_of right_pid)

unfoldable pub after_left : Side → Side → ℕ × ℕ → Bool → ℕ → Prog ℕ
unfolding start_right close_both
after_left left right pipe_fds left_is_background left_pid =
    if is_negative left_pid
    then (do
      error "\u{1b}[0;31mError: Could not create left process '%s'\u{1b}[0m\n"
          (str (codes left.name) ∷ [])
      close_both pipe_fds)
    else start_right right pipe_fds left_is_background left_pid

unfoldable pub start_left : Side → Side → ℕ × ℕ → Bool → Prog ℕ
unfolding after_left
start_left left right pipe_fds left_is_background = do
  left_pid ← create_side left (not left_is_background) (fd_stdin, pipe_fds.1)
  after_left left right pipe_fds left_is_background (int_of left_pid)

unfoldable pub connect : Side → Side → Bool → ℕ × (ℕ × ℕ) → Prog ℕ
unfolding start_left close_both
connect left right run_left_in_background (result, pipe_fds) =
    if not (result == 0)
    then fail (error "\u{1b}[0;31mError: Could not create pipe\u{1b}[0m\n" [])
    else if run_left_in_background && not left.spawn.allow_background
    then (do
      error
          "\u{1b}[0;31mError: Command '%s' cannot run in background (requires user input)\u{1b}[0m\n"
          (str (codes left.name) ∷ [])
      close_both pipe_fds)
    else start_left left right pipe_fds run_left_in_background

unfoldable pub pipe_sides : Side → Side → Bool → Prog ℕ
unfolding connect
pipe_sides left right run_left_in_background =
    open_pipe >>= connect left right run_left_in_background

-- The checks of both commands, in the order of the source: they exist, then they are processes.
unfoldable pub check_right : Side → String → Handler → List ℕ → List (List ℕ) → Bool → Prog ℕ
unfolding pipe_sides
check_right left name (builtin b) arg0 argv background = fail (
    error
      "\u{1b}[0;31mError: Right command '%s' must be a process (built-ins not supported in pipes yet)\u{1b}[0m\n"
      (str arg0 ∷ []))
check_right left name (process s) arg0 argv background =
    pipe_sides left (record { name = name; spawn = s; argv = argv }) background

unfoldable pub check_left :
    Entry → Handler → List ℕ → List (List ℕ) → Entry → List ℕ → List (List ℕ) → Bool → Prog ℕ
unfolding check_right
check_left l (builtin b) arg0 argv r right_arg0 right_argv background = fail (
    error
      "\u{1b}[0;31mError: Left command '%s' must be a process (built-ins not supported in pipes yet)\u{1b}[0m\n"
      (str arg0 ∷ []))
check_left l (process s) arg0 argv r right_arg0 right_argv background =
    check_right (record { name = l.name; spawn = s; argv = argv }) r.name r.handler right_arg0
      right_argv background

unfoldable pub check_found :
    Option Entry → Option Entry → List ℕ → List ℕ → List (List ℕ) → List (List ℕ) → Bool → Prog ℕ
unfolding check_left
check_found none r left0 right0 left_argv right_argv background =
    fail (error "\u{1b}[0;31mError: Left command '%s' not found\u{1b}[0m\n" (str left0 ∷ []))
check_found (some l) none left0 right0 left_argv right_argv background =
    fail (error "\u{1b}[0;31mError: Right command '%s' not found\u{1b}[0m\n" (str right0 ∷ []))
check_found (some l) (some r) left0 right0 left_argv right_argv background =
    check_left l l.handler left0 left_argv r right0 right_argv background

unfoldable pub check_words : List (List ℕ) → List (List ℕ) → Bool → Prog ℕ
unfolding check_found find_command
check_words [] right_argv background =
    fail (error "\u{1b}[0;31mError: Invalid left command in pipe\u{1b}[0m\n" [])
check_words (left0 ∷ ls) [] background =
    fail (error "\u{1b}[0;31mError: Invalid right command in pipe\u{1b}[0m\n" [])
check_words (left0 ∷ ls) (right0 ∷ rs) background =
    check_found (find_command left0) (find_command right0) left0 right0 (left0 ∷ ls) (right0 ∷ rs)
      background

unfoldable pub execute_pipe : List ℕ → List ℕ → Bool → Prog ℕ
unfolding check_words
execute_pipe left_cmd right_cmd run_left_in_background =
    check_words (take max_args (fields left_cmd)) (take max_args (fields right_cmd))
      run_left_in_background

-- The result of a command that ran; `none` leaves `last_command_output` as it is.
abbrev pub ran : Prog ℕ → Prog (Option ℕ)
ran p = p >>= λ result. ret (some result)

abbrev not_run : Prog (Unit {0}) → Prog (Option ℕ)
not_run message = message >>= λ _. ret none

unfoldable pub run_found : Option Entry → List ℕ → List (List ℕ) → Bool → Prog (Option ℕ)
unfolding execute_command
run_found none arg0 argv background =
    not_run (error "\u{1b}[0;33mCommand not found:\u{1b}[0m %s\n" (str arg0 ∷ []))
run_found (some cmd) arg0 argv background = ran (execute_command cmd argv background)

unfoldable pub run_line : Command → Prog (Option ℕ)
unfolding run_found find_command execute_pipe
run_line bad_pipe = not_run (error "\u{1b}[0;31mError: Invalid pipe syntax\u{1b}[0m\n" [])
run_line (piped left right background) = ran (execute_pipe left right background)
run_line (simple [] background) = ret none
run_line (simple (arg0 ∷ args) background) =
    run_found (find_command arg0) arg0 (arg0 ∷ args) background

unfoldable pub run_command : List ℕ → Prog (Option ℕ)
unfolding run_line read_command
run_command typed = run_line (read_command typed)

unfoldable pub run_entered : Entered → Prog (Option ℕ)
unfolding run_command
run_entered overflow = not_run (error "\u{1b}[0;31mShell buffer overflow\u{1b}[0m\n" [])
run_entered empty = ret none
run_entered (line typed) = run_command typed

-- A round of the loop of main, on what `read_line` reads in it.
unfoldable pub round : Entered → Prog (Option ℕ)
unfolding run_entered
round typed = do printf "\u{1b}[0mshell \u{1b}[0;32m$\u{1b}[0m " []; run_entered typed
