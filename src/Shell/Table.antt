-- ===== src/Shell/Table.antt =====
-- Userland/Shell/shell.c: the table of commands.
use Prim.Native.String.{String}
use tp2_sistemas_operativos.Prelude.{
  ℕ, List, [], ◌∷◌, Option, none, some, Bool, true, false, if◌then◌else◌, codes,
}
use tp2_sistemas_operativos.Calls.{
  EntryPoint, counter_wrapper, loop_wrapper, loop_ps_wrapper, filter_wrapper, cat_wrapper,
  wc_wrapper, test_mm_wrapper, test_processes_wrapper, test_prio_wrapper, test_synchro_wrapper,
  test_no_synchro_wrapper, mvar_wrapper,
}
use tp2_sistemas_operativos.Strings.Contents.{same_text}

-- The functions that the table points to.
pub data Builtin : Type 0 where
  clear echo font help man ps mem kill_cmd block_cmd nice_cmd : Builtin

pub record Spawn : Type 0 where
  pub entrypoint : EntryPoint
  pub priority : ℕ
  pub is_background : Bool
  pub allow_background : Bool

-- The type of a command with its handler.
pub data Handler : Type 0 where
  builtin : Builtin → Handler
  process : Spawn → Handler

pub record Entry : Type 0 where
  pub name : String
  pub description : String
  pub usage : String
  pub handler : Handler

abbrev pub default_priority : ℕ
default_priority = 3

abbrev entry_of : String → String → String → Handler → Entry
entry_of name description usage handler = record {
  name = name;
  description = description;
  usage = usage;
  handler = handler;
}

abbrev spawn : EntryPoint → Bool → Handler
spawn entrypoint allow_background = process (record {
  entrypoint = entrypoint;
  priority = default_priority;
  is_background = false;
  allow_background = allow_background;
})

unfoldable pub commands : List Entry
commands =
    entry_of "clear" "Clears the screen" "clear" (builtin clear)
    ∷ entry_of "echo" "Prints the input string" "echo <text>" (builtin echo)
    ∷ entry_of "font" "Increases or decreases the font size" "font [increase|decrease]"
        (builtin font)
    ∷ entry_of "help" "Prints the available commands" "help" (builtin help)
    ∷ entry_of "man" "Prints the description and usage of a command" "man <command>" (builtin man)
    ∷ entry_of "ps" "Prints the list of all processes with their properties" "ps" (builtin ps)
    ∷ entry_of "mem" "Prints memory status and usage" "mem" (builtin mem)
    ∷ entry_of "kill" "Kills a process by PID or all user processes" "kill <pid> | kill all"
        (builtin kill_cmd)
    ∷ entry_of "block" "Toggles process state between blocked and ready" "block <pid>"
        (builtin block_cmd)
    ∷ entry_of "nice" "Changes the priority of a process" "nice <pid> <priority>" (builtin nice_cmd)
    ∷ entry_of "counter" "Counts from 1 to N and exits" "counter [max_count]"
        (spawn counter_wrapper true)
    ∷ entry_of "loop" "Prints PID with greeting every N seconds" "loop [seconds]"
        (spawn loop_wrapper true)
    ∷ entry_of "loop_ps" "Runs ps in a loop to monitor shell state" "loop_ps"
        (spawn loop_ps_wrapper true)
    ∷ entry_of "filter" "Reads from stdin and filters out vowels"
        "filter  (type anything and use Ctrl+D to end)" (spawn filter_wrapper false)
    ∷ entry_of "cat" "Reads from stdin and echoes it back"
        "cat (type anything and use Ctrl+D to end)" (spawn cat_wrapper false)
    ∷ entry_of "wc" "Reads from stdin and counts characters"
        "wc (type anything and use Ctrl+D to end)" (spawn wc_wrapper false)
    ∷ entry_of "test_mm" "Memory manager stress test" "test_mm <max_memory_bytes>"
        (spawn test_mm_wrapper true)
    ∷ entry_of "test_processes" "Process creation and management test"
        "test_processes <max_processes>" (spawn test_processes_wrapper true)
    ∷ entry_of "test_prio" "Process priority test" "test_prio <max_value>"
        (spawn test_prio_wrapper true)
    ∷ entry_of "test_synchro" "Synchronization test WITH semaphore" "test_synchro [iterations]"
        (spawn test_synchro_wrapper true)
    ∷ entry_of "test_no_synchro" "Synchronization test WITHOUT semaphore"
        "test_no_synchro [iterations]" (spawn test_no_synchro_wrapper true)
    ∷ entry_of "mvar" "Multiple readers/writers synchronization problem" "mvar <writers> <readers>"
        (spawn mvar_wrapper false)
    ∷ []

unfoldable pub find_in : List Entry → List ℕ → Option Entry
find_in [] name = none
find_in (e ∷ es) name =
    let rest = find_in es name in if same_text (codes e.name) name then some e else rest

unfoldable pub find_command : List ℕ → Option Entry
unfolding find_in commands same_text
find_command name = find_in commands name
