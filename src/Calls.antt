-- ===== src/Calls.antt =====
-- Userland/libsys/libsys.c: the system calls that the programs of Userland make.
-- A program is the tree of its calls: what it asks for next, and how it goes on with each answer. An
-- `int` or `long` answer is its 32 or 64 bits, a text its bytes before the NUL.
pub mod Always
use tp2_sistemas_operativos.Prelude.{ℕ, ◌-◌, ◌%◌, ◌^◌, List, Option, Bool}
use Prim.Native.String.{String}
use tp2_sistemas_operativos.State.{ProcessState}

-- The functions that the programs of Userland give to createProcess.
pub data EntryPoint : Type 0 where
  counter_wrapper loop_wrapper loop_ps_wrapper filter_wrapper cat_wrapper wc_wrapper : EntryPoint
  test_mm_wrapper test_processes_wrapper test_prio_wrapper : EntryPoint
  test_synchro_wrapper test_no_synchro_wrapper : EntryPoint
  mvar_wrapper mvar_writer mvar_reader : EntryPoint

pub record CreationParameters : Type 0 where
  pub argc : ℕ
  pub argv : List (List ℕ)
  pub name : List ℕ
  pub priority : ℕ
  pub entry_point : EntryPoint
  pub foreground : Bool
  pub fds : ℕ × ℕ

-- What the shell reads of an entry of the process list.
pub record ProcessInfo : Type 0 where
  pub pid : ℕ
  pub name : List ℕ
  pub priority : ℕ
  pub state : ProcessState
  pub stack_base : ℕ
  pub stack_end : ℕ
  pub foreground : Bool

-- The array of a process list: its entries up to the one with NONPID, and what lies behind that one
-- up to the first entry with a PID of 0.
pub record Listing : Type 0 where
  pub entries : List ProcessInfo
  pub beyond : List ProcessInfo

pub record MemoryStatus : Type 0 where
  pub total : ℕ
  pub used : ℕ
  pub free : ℕ
  pub base : ℕ

-- An argument of a format.
pub data Arg : Type 0 where
  int : ℕ → Arg
  str : List ℕ → Arg

-- The `sys_` functions, and beside them formatted output and waiting in a loop.
pub data Request : Type 0 where
  fprintf : ℕ → String → List Arg → Request
  bussy_wait : ℕ → Request
  sys_clear_screen : Request
  sys_fonts_increase_size : Request
  sys_fonts_decrease_size : Request
  sys_clear_input_buffer : Request
  sys_sleep_milis : ℕ → Request
  sys_get_mem_status : Request
  sys_malloc : ℕ → Request
  sys_free : Request
  sys_create_process : CreationParameters → Request
  sys_getpid : Request
  sys_kill : ℕ → Request
  sys_block : ℕ → Request
  sys_unblock : ℕ → Request
  sys_ps : Request
  sys_change_priority : ℕ → ℕ → Request
  sys_wait : ℕ → Request
  sys_sem_open : List ℕ → ℕ → Request
  sys_sem_wait : ℕ → Request
  sys_sem_post : ℕ → Request
  sys_pipe : Request
  sys_close : ℕ → Request
  sys_get_fd : Request
  sys_read_byte : ℕ → Request
  sys_write : ℕ → List ℕ → Request

-- What comes back: a result, with what the call writes through its pointers. `none` is a NULL list,
-- a failure of `sys_get_fd`, and a read of nothing.
abbrev pub Answer : Request → Type 0
Answer (fprintf _ _ _) = Unit {0}
Answer (bussy_wait _) = Unit {0}
Answer sys_clear_screen = Unit {0}
Answer sys_clear_input_buffer = Unit {0}
Answer (sys_sleep_milis _) = Unit {0}
Answer sys_get_mem_status = ℕ × MemoryStatus
Answer sys_free = Unit {0}
Answer sys_ps = Option Listing
Answer (sys_sem_wait _) = Unit {0}
Answer (sys_sem_post _) = Unit {0}
Answer sys_pipe = ℕ × (ℕ × ℕ)
Answer sys_get_fd = Option (ℕ × ℕ)
Answer (sys_read_byte _) = Option ℕ
Answer _ = ℕ

pub data Prog (A : Type 0) : Type 0 where
  ret : A → Prog A
  call : (r : Request) → (Answer r → Prog A) → Prog A

infixl 5 ◌>>=◌ ◌>>◌
abbrev pub ◌>>=◌ : {A B : Type 0} → Prog A → (A → Prog B) → Prog B
ret a >>= f = f a
call r k >>= f = call r (λ a. k a >>= f)

abbrev pub ◌>>◌ : {A B : Type 0} → Prog A → Prog B → Prog B
m >> k = m >>= λ _. k

abbrev pub ask : (r : Request) → Prog (Answer r)
ask r = call r ret

abbrev pub fd_stdin : ℕ
fd_stdin = 0

abbrev pub fd_stdout : ℕ
fd_stdout = 1

abbrev pub fd_stderr : ℕ
fd_stderr = 2

abbrev pub printf : String → List Arg → Prog (Unit {0})
printf format args = ask (fprintf fd_stdout format args)

abbrev pub clear_screen : Prog (Unit {0})
clear_screen = ask sys_clear_screen

abbrev pub increase_font_size : Prog ℕ
increase_font_size = ask sys_fonts_increase_size

abbrev pub decrease_font_size : Prog ℕ
decrease_font_size = ask sys_fonts_decrease_size

abbrev pub clear_input_buffer : Prog (Unit {0})
clear_input_buffer = ask sys_clear_input_buffer

abbrev pub sleep : ℕ → Prog (Unit {0})
sleep miliseconds = ask (sys_sleep_milis miliseconds)

abbrev pub get_memory_status : Prog (ℕ × MemoryStatus)
get_memory_status = ask sys_get_mem_status

abbrev pub malloc : ℕ → Prog ℕ
malloc size = ask (sys_malloc size)

abbrev pub free : Prog (Unit {0})
free = ask sys_free

abbrev pub create_process : List ℕ → EntryPoint → ℕ → List (List ℕ) → ℕ → Bool → ℕ × ℕ → Prog ℕ
create_process name entry argc argv priority foreground fds = ask (
    sys_create_process (record {
      argc = argc;
      argv = argv;
      name = name;
      priority = priority;
      entry_point = entry;
      foreground = foreground;
      fds = fds;
    }))

abbrev pub getpid : Prog ℕ
getpid = ask sys_getpid

abbrev pub kill : ℕ → Prog ℕ
kill pid = ask (sys_kill pid)

abbrev pub block : ℕ → Prog ℕ
block pid = ask (sys_block pid)

abbrev pub unblock : ℕ → Prog ℕ
unblock pid = ask (sys_unblock pid)

abbrev pub get_process_list : Prog (Option Listing)
get_process_list = ask sys_ps

abbrev pub nice : ℕ → ℕ → Prog ℕ
nice pid priority = ask (sys_change_priority pid priority)

-- The answer is what `wstatus` points to.
abbrev pub wait : ℕ → Prog ℕ
wait pid = ask (sys_wait pid)

abbrev pub sem_open : List ℕ → ℕ → Prog ℕ
sem_open name value = ask (sys_sem_open name value)

abbrev pub sem_wait : ℕ → Prog (Unit {0})
sem_wait id = ask (sys_sem_wait id)

abbrev pub sem_post : ℕ → Prog (Unit {0})
sem_post id = ask (sys_sem_post id)

abbrev pub open_pipe : Prog (ℕ × (ℕ × ℕ))
open_pipe = ask sys_pipe

abbrev pub close_fd : ℕ → Prog ℕ
close_fd fd = ask (sys_close fd)

abbrev pub get_fd : Prog (Option (ℕ × ℕ))
get_fd = ask sys_get_fd

abbrev pub read_byte : ℕ → Prog (Option ℕ)
read_byte fd = ask (sys_read_byte fd)

abbrev pub write : ℕ → List ℕ → Prog ℕ
write fd bytes = ask (sys_write fd bytes)

abbrev pub int_of : ℕ → ℕ
int_of n = n % 2 ^ 32

abbrev pub minus_one : ℕ
minus_one = 2 ^ 32 - 1
