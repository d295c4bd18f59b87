-- ===== src/State.antt =====
-- The state that Kernel/process/process.c and Kernel/process/scheduler.c share.
-- A `Process *` is the index of its entry in `processes`. A PID is a `long` of which every test first
-- refuses what is not positive, so that a negative one is read as 0.
use tp2_sistemas_operativos.Prelude.{ℕ, List, Option, Bool, true, false, update}
use tp2_sistemas_operativos.Queue.{Queue}

pub data ProcessState : Type 0 where
  ready running blocked exited : ProcessState

abbrev pub is_exited : ProcessState → Bool
is_exited exited = true
is_exited _ = false

abbrev pub is_blocked : ProcessState → Bool
is_blocked blocked = true
is_blocked _ = false

abbrev pub max_name_length : ℕ
max_name_length = 20

abbrev pub max_processes : ℕ
max_processes = 100

abbrev pub max_pid : ℕ
max_pid = max_processes

abbrev pub max_priority : ℕ
max_priority = 5

abbrev pub min_priority : ℕ
min_priority = 1

abbrev pub init_pid : ℕ
init_pid = 1

abbrev pub shell_pid : ℕ
shell_pid = 2

abbrev pub stack_size : ℕ
stack_size = 4096

-- `args` is the array of pointers that `argv` points to. `wait_pid` is `none` for NONPID.
pub record Process : Type 0 where
  pub name : List ℕ
  pub pid : ℕ
  pub argc : ℕ
  pub argv : ℕ
  pub args : List ℕ
  pub priority : ℕ
  pub original_priority : ℕ
  pub foreground : ℕ
  pub entry_point : ℕ
  pub state : ProcessState
  pub stack_base : ℕ
  pub stack_end : ℕ
  pub wait_return_value : ℕ
  pub wait_pid : Option ℕ
  pub fds : ℕ × ℕ
  pub aging_counter : ℕ

-- `queues` is `priorityQueues`; `current_process` is `none` for NULL.
pub record Kernel (Heap : Type 0) : Type 0 where
  pub processes : ℕ → Process
  pub current : ℕ
  pub queues : ℕ → Queue
  pub current_process : Option ℕ
  pub quantums_left : ℕ
  pub is_yield : Bool
  pub heap : Heap

module _ {Heap : Type 0} where
  abbrev pub put_process : ℕ → Process → Kernel Heap → Kernel Heap
  put_process i p k = record k { processes = update k.processes i p }

  abbrev pub put_state : ℕ → ProcessState → Kernel Heap → Kernel Heap
  put_state i s k = put_process i (record (k.processes i) { state = s }) k

  abbrev pub put_queue : ℕ → Queue → Heap → Kernel Heap → Kernel Heap
  put_queue i q h k = record k { queues = update k.queues i q; heap = h }

  abbrev pub state_of : Kernel Heap → ℕ → ProcessState
  state_of k i = (k.processes i).state
