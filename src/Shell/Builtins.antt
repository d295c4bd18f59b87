-- ===== src/Shell/Builtins.antt =====
-- Userland/Shell/shell.c: the commands that the shell runs itself.
-- `argv` is the list of the words, and `argc` its length. A result is the 32 bits of an `int`.
pub mod Processes
use Prim.Native.String.{String}
use tp2_sistemas_operativos.Prelude.{
  ℕ, zero, suc, ◌+◌, ◌-◌, ◌*◌, ◌/◌, ◌%◌, ◌^◌, List, [], ◌∷◌, Option, none, some, Bool, true, false,
  ltb, ◌==◌, if◌then◌else◌, length, get_or, codes,
}
use tp2_sistemas_operativos.State.{ProcessState, ready, running, blocked, exited}
use tp2_sistemas_operativos.Strings.Contents.{strcasecmp}
use tp2_sistemas_operativos.Calls.{
  Prog, ret, ◌>>=◌, ◌>>◌, ask, fprintf, Arg, int, str, printf, fd_stderr, clear_screen,
  increase_font_size, decrease_font_size, get_memory_status, get_process_list, free, MemoryStatus,
  Listing, ProcessInfo,
}
use tp2_sistemas_operativos.Shell.Table.{Entry, Handler, builtin, process, commands}

abbrev pub error : String → List Arg → Prog (Unit {0})
error format args = ask (fprintf fd_stderr format args)

abbrev pub word : List (List ℕ) → ℕ → List ℕ
word argv i = get_or argv i []

-- `commands[i].usage`
abbrev usage_at : ℕ → List Entry → String
usage_at i [] = ""
usage_at zero (e ∷ es) = e.usage
usage_at (suc i) (e ∷ es) = usage_at i es

unfoldable pub echo_words : List (List ℕ) → Prog (Unit {0})
echo_words [] = ret tt
echo_words (w ∷ []) = printf "%s" (str w ∷ [])
echo_words (w ∷ v ∷ ws) = do printf "%s" (str w ∷ []); printf " " []; echo_words (v ∷ ws)

abbrev tail_of : List (List ℕ) → List (List ℕ)
tail_of [] = []
tail_of (w ∷ ws) = ws

unfoldable pub echo : List (List ℕ) → Prog ℕ
unfolding echo_words
echo argv = do echo_words (tail_of argv); printf "\n" []; ret 0

unfoldable pub help_lines : List Entry → Prog (Unit {0})
help_lines [] = ret tt
help_lines (e ∷ es) = do
  printf "  %s\t- %s\n" (str (codes e.name) ∷ str (codes e.description) ∷ [])
  help_lines es

unfoldable pub help : Prog ℕ
unfolding help_lines commands
help = do
  printf "Available commands:\n" []
  help_lines commands
  printf "\nUse 'man <command>' for more information.\n" []
  ret 0

unfoldable pub clear : Prog ℕ
clear = do clear_screen; ret 0

unfoldable pub font : List (List ℕ) → Prog ℕ
unfolding commands strcasecmp
font argv =
    if ltb (length argv) 2
    then (do error "Usage: %s\n" (str (codes (usage_at 4 commands)) ∷ []); ret 1)
    else if strcasecmp (word argv 1) (codes "increase") == 0
    then increase_font_size
    else if strcasecmp (word argv 1) (codes "decrease") == 0
    then decrease_font_size
    else do
      error "Invalid argument: %s\n" (str (word argv 1) ∷ [])
      error "Usage: %s\n" (str (codes (usage_at 4 commands)) ∷ [])
      ret 1

abbrev type_name : Handler → String
type_name (builtin _) = "Built-in"
type_name (process _) = "Process"

unfoldable pub man_in : List Entry → List ℕ → Prog ℕ
man_in [] name = do error "Command not found: %s\n" (str name ∷ []); ret 1
man_in (e ∷ es) name =
    let rest = man_in es name in
    if strcasecmp (codes e.name) name == 0
    then (do
      printf "Command: %s\n" (str (codes e.name) ∷ [])
      printf "Usage: %s\n" (str (codes e.usage) ∷ [])
      printf "Description: %s\n" (str (codes e.description) ∷ [])
      printf "Type: %s\n" (str (codes (type_name e.handler)) ∷ [])
      ret 0)
    else rest

unfoldable pub man : List (List ℕ) → Prog ℕ
unfolding man_in commands strcasecmp
man argv =
    if ltb (length argv) 2
    then (do error "Usage: man <command>\n" []; ret 1)
    else man_in commands (word argv 1)

abbrev pub state_name : ProcessState → String
state_name ready = "READY"
state_name running = "RUNNING"
state_name blocked = "BLOCKED"
state_name exited = "EXITED"

abbrev state_color : ProcessState → String
state_color running = "\u{1b}[1;32m"
state_color ready = "\u{1b}[0;32m"
state_color blocked = "\u{1b}[0;33m"
state_color exited = "\u{1b}[0;31m"

abbrev ground_name : Bool → String
ground_name true = "Foreground"
ground_name false = "Background"

unfoldable pub ps_blocks : List ProcessInfo → Prog (Unit {0})
ps_blocks [] = ret tt
ps_blocks (p ∷ ps) = do
  printf "\n\u{1b}[1;34mPID:\u{1b}[0m          %d\n" (int p.pid ∷ [])
  printf "\u{1b}[1;34mName:\u{1b}[0m         %s\n" (str p.name ∷ [])
  printf "\u{1b}[1;34mPriority:\u{1b}[0m     %d\n" (int p.priority ∷ [])
  printf "\u{1b}[1;34mState:\u{1b}[0m        %s%s\u{1b}[0m\n"
      (str (codes (state_color p.state)) ∷ str (codes (state_name p.state)) ∷ [])
  printf "\u{1b}[1;34mStack Base:\u{1b}[0m   0x%016lx\n" (int p.stack_base ∷ [])
  printf "\u{1b}[1;34mStack Ptr:\u{1b}[0m    0x%016lx\n" (int p.stack_end ∷ [])
  printf "\u{1b}[1;34mExecution:\u{1b}[0m    %s\n" (str (codes (ground_name p.foreground)) ∷ [])
  printf "----------------------------------\n" []
  ps_blocks ps

unfoldable pub ps_list : Option Listing → Prog ℕ
unfolding ps_blocks
ps_list none = do error "Error: Could not retrieve process information\n" []; ret 1
ps_list (some l) = do
  printf "\n\u{1b}[1;36m========== PROCESS LIST ==========\u{1b}[0m\n" []
  ps_blocks l.entries
  printf "\n" []
  free
  ret 0

unfoldable pub ps : Prog ℕ
ps = get_process_list >>= ps_list

-- `n` cells of the bar from the cell `i` on.
unfoldable pub bar : ℕ → ℕ → ℕ → Prog (Unit {0})
bar zero i filled_width = ret tt
bar (suc n) i filled_width = do
  printf (if ltb i filled_width then "\u{1b}[1;32m=\u{1b}[0m" else "\u{1b}[0;37m-\u{1b}[0m") []
  bar n (i + 1) filled_width

-- The products are of 32 bits.
unfoldable pub usage_percent : MemoryStatus → ℕ
usage_percent s = s.used * 100 % 2 ^ 32 / s.total

unfoldable pub mem_usage : MemoryStatus → Prog (Unit {0})
unfolding bar usage_percent
mem_usage s = if s.total == 0 then ret tt else do
  printf "\u{1b}[1;34mUsage:\u{1b}[0m     [" []
  bar 40 0 (usage_percent s * 40 % 2 ^ 32 / 100)
  printf "] %d%%\n" (int (usage_percent s) ∷ [])

unfoldable pub mem_report : ℕ × MemoryStatus → Prog ℕ
unfolding mem_usage
mem_report (result, s) =
    if result == 0
    then (do
      printf "\n\u{1b}[1;36m========== MEMORY STATUS ==========\u{1b}[0m\n\n" []
      printf "\u{1b}[1;34mTotal Memory:\u{1b}[0m   %d bytes (%d KB)\n"
          (int s.total ∷ int (s.total / 1024) ∷ [])
      printf "\u{1b}[1;34mUsed Memory:\u{1b}[0m    %d bytes (%d KB)\n"
          (int s.used ∷ int (s.used / 1024) ∷ [])
      printf "\u{1b}[1;34mFree Memory:\u{1b}[0m    %d bytes (%d KB)\n"
          (int s.free ∷ int (s.free / 1024) ∷ [])
      printf "\u{1b}[1;34mBase Address:\u{1b}[0m   %x\n" (int s.base ∷ [])
      mem_usage s
      printf "\n" []
      ret 0)
    else do error "Error: Could not retrieve memory status\n" []; ret 1

unfoldable pub mem : Prog ℕ
unfolding mem_report
mem = get_memory_status >>= mem_report
