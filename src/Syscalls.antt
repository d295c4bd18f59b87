-- ===== src/Syscalls.antt =====
-- Kernel/idt/syscallDispatcher.c: the system calls for memory, processes, semaphores and descriptors.
-- The state is that of the descriptors, which holds the semaphores, the processes and the heap. A
-- register has 64 bits, and a result is the 32 bits of the `int32_t` that the dispatcher returns.
mod Number
pub mod Ended
pub mod Names
mod Tests
use tp2_sistemas_operativos.Prelude.{
  ℕ, ◌-◌, ◌%◌, ◌^◌, List, [], ◌∷◌, Option, none, some, Bool, true, false, not, ◌||◌, ◌==◌,
  if◌then◌else◌,
}
use tp2_sistemas_operativos.Memory.Interface.{Allocator}
use tp2_sistemas_operativos.State.{Kernel, init_pid}
use tp2_sistemas_operativos.Process.Table.{
  Entry, is_valid_pid, get_processes_information, get_file_descriptors,
}
use tp2_sistemas_operativos.Process.Create
use tp2_sistemas_operativos.Process.Create.{CreationParameters}
use tp2_sistemas_operativos.Process.Exit
use tp2_sistemas_operativos.Process.Exit.{begin_wait, change_process_priority}
use tp2_sistemas_operativos.Scheduler.Block
use tp2_sistemas_operativos.Scheduler.Block.{block_process, unblock_process}
use tp2_sistemas_operativos.Semaphore
use tp2_sistemas_operativos.Semaphore.{
  SemKernel, Turn, asleep, is_negative, sem_exists, find_sem_by_name, sem_set_value,
}
use tp2_sistemas_operativos.Files.{
  FileKernel, with_sem, with_heap, with_kernel, kernel_of, create_pipe,
}
use tp2_sistemas_operativos.Files.Close.{close_fd}
unfoldable pub use Number.*

-- The result with the words that are written through the pointer, or a call that waits.
pub data Result : Type 0 where
  returns : ℕ → List ℕ → Result
  waits : Result

abbrev pub failed : Result
failed = returns (2 ^ 32 - 1) []

abbrev pub int_of : ℕ → ℕ
int_of n = n % 2 ^ 32

abbrev pub result_of : Option ℕ → Result
result_of none = failed
result_of (some n) = returns (int_of n) []

abbrev pub turn_of : Turn → Result
turn_of asleep = waits
turn_of _ = returns 0 []

module _ {Heap : Type 0} where
  abbrev pub in_kernel :
      Option ℕ × Kernel Heap → FileKernel Heap → Option (Result × FileKernel Heap)
  in_kernel (o, k) s = some (result_of o, with_kernel k s)

  abbrev pub in_sem :
      Option ℕ × SemKernel Heap → FileKernel Heap → Option (Result × FileKernel Heap)
  in_sem (o, m) s = some (result_of o, with_sem m s)

  -- A switch that does not return is `none`.
  abbrev pub switched :
      Option (Option ℕ × Kernel Heap) → FileKernel Heap → Option (Result × FileKernel Heap)
  switched none s = none
  switched (some r) s = in_kernel r s

  abbrev pub killed : Option (Option ℕ × FileKernel Heap) → Option (Result × FileKernel Heap)
  killed none = none
  killed (some (o, s)) = some (result_of o, s)

  abbrev pub coded : Option (ℕ × Kernel Heap) → FileKernel Heap → Option (Result × FileKernel Heap)
  coded none s = none
  coded (some (n, k)) s = some (returns n [], with_kernel k s)

  abbrev pub zero_after : Option (Kernel Heap) → FileKernel Heap → Option (Result × FileKernel Heap)
  zero_after none s = none
  zero_after (some k) s = some (returns 0 [], with_kernel k s)

  abbrev pub waited :
      Option (Turn × SemKernel Heap) → FileKernel Heap → Option (Result × FileKernel Heap)
  waited none s = none
  waited (some (t, m)) s = some (turn_of t, with_sem m s)

  abbrev pub two_written : Option (ℕ × ℕ) → FileKernel Heap → Option (Result × FileKernel Heap)
  two_written none s = some (failed, s)
  two_written (some (a, b)) s = some (returns 0 (a ∷ b ∷ []), s)

  abbrev pub is_sem : ℕ → FileKernel Heap → Bool
  is_sem id s = not (is_negative id || not (sem_exists id s.sem))

  unfoldable pub sys_get_fd : ℕ → FileKernel Heap → Option (Result × FileKernel Heap)
  sys_get_fd fds s =
      if fds == 0 then some (failed, s) else two_written (get_file_descriptors (kernel_of s)) s

-- `setup_stack` is assembly. `params` and `text`
-- read what lies at an address of the caller's memory, and `on_device` is the other calls.
module _ (A : Allocator) (null_pid : ℕ) (setup_stack : ℕ → ℕ → ℕ → ℕ → ℕ)
    (params : ℕ → CreationParameters) (text : ℕ → List ℕ)
    (on_device : Registers → FileKernel (A.Heap) → Option (Result × FileKernel (A.Heap))) where
  open A use {Heap, alloc}

  unfoldable pub sys_malloc : ℕ → FileKernel Heap → Option (Result × FileKernel Heap)
  sys_malloc size s =
      let (p, h) = alloc (int_of size) (kernel_of s).heap in
      some (returns (int_of p) [], with_heap h s)

  unfoldable pub sys_create_process : ℕ → FileKernel Heap → Option (Result × FileKernel Heap)
  sys_create_process p s =
      if p == 0
      then some (failed, s)
      else in_kernel (Create.create_process A setup_stack (some (params p)) (kernel_of s)) s

  unfoldable pub sys_block : ℕ → ℕ → FileKernel Heap → Option (Result × FileKernel Heap)
  sys_block rsp pid s =
      if pid == init_pid || not (is_valid_pid pid (kernel_of s))
      then some (failed, s)
      else coded (block_process A rsp pid (kernel_of s)) s

  abbrev listed :
      Option (ℕ × List Entry) × Heap → FileKernel Heap → Option (Result × FileKernel Heap)
  listed (none, h) s = some (returns 0 [], with_heap h s)
  listed (some (p, es), h) s = some (returns (int_of p) [], with_heap h s)

  unfoldable pub sys_free : ℕ → FileKernel Heap → Option (Result × FileKernel Heap)
  sys_free p s = some (returns 0 [], with_heap (A.free p (kernel_of s).heap) s)

  unfoldable pub sys_getpid : FileKernel Heap → Option (Result × FileKernel Heap)
  sys_getpid s = some (returns (int_of (Semaphore.getpid A null_pid (kernel_of s))) [], s)

  unfoldable pub sys_kill : ℕ → ℕ → FileKernel Heap → Option (Result × FileKernel Heap)
  sys_kill rsp pid s = killed (Exit.kill A rsp pid s)

  unfoldable pub sys_unblock : ℕ → FileKernel Heap → Option (Result × FileKernel Heap)
  sys_unblock pid s = in_kernel (unblock_process A pid (kernel_of s)) s

  unfoldable pub sys_ps : FileKernel Heap → Option (Result × FileKernel Heap)
  sys_ps s = listed (get_processes_information A (kernel_of s)) s

  unfoldable pub sys_change_priority :
      ℕ → ℕ → ℕ → FileKernel Heap → Option (Result × FileKernel Heap)
  sys_change_priority rsp pid priority s =
      switched (change_process_priority A rsp pid priority (kernel_of s)) s

  unfoldable pub sys_yield : ℕ → FileKernel Heap → Option (Result × FileKernel Heap)
  sys_yield rsp s = zero_after (Block.yield A rsp (kernel_of s)) s

  unfoldable pub sys_wait : ℕ → ℕ → FileKernel Heap → Option (Result × FileKernel Heap)
  sys_wait rsp pid s = elim (kernel_of s).current_process [
    | none ↦ none
    | some i ↦ elim (begin_wait A rsp i pid (kernel_of s)) [
      | none ↦ none
      | some (o, k) ↦ some (returns 0 [], with_kernel k s)
    ]
  ]

  unfoldable pub sys_sem_open : ℕ → ℕ → FileKernel Heap → Option (Result × FileKernel Heap)
  sys_sem_open name value s =
      if name == 0 then some (failed, s) else elim (find_sem_by_name (text name) s.sem) [
        | none ↦ in_sem (Semaphore.sem_create A null_pid (text name) value s.sem) s
        | some id ↦ in_sem (Semaphore.sem_open A null_pid (text name) s.sem) s
      ]

  unfoldable pub sys_sem_close : ℕ → FileKernel Heap → Option (Result × FileKernel Heap)
  sys_sem_close id s = in_sem (Semaphore.sem_close A null_pid id s.sem) s

  unfoldable pub sys_sem_wait : ℕ → ℕ → FileKernel Heap → Option (Result × FileKernel Heap)
  sys_sem_wait rsp id s =
      if is_sem id s
      then waited (Semaphore.sem_wait A null_pid rsp id s.sem) s
      else some (returns 0 [], s)

  unfoldable pub sys_sem_post : ℕ → FileKernel Heap → Option (Result × FileKernel Heap)
  sys_sem_post id s =
      if is_sem id s
      then some (returns 0 [], with_sem (Semaphore.sem_post A id s.sem).1 s)
      else some (returns 0 [], s)

  unfoldable pub sys_sem_destroy : ℕ → FileKernel Heap → Option (Result × FileKernel Heap)
  sys_sem_destroy id s =
      if is_sem id s
      then some (returns 0 [], with_sem (Semaphore.sem_destroy A id s.sem).1 s)
      else some (returns 0 [], s)

  abbrev piped : Option (ℕ × ℕ) × FileKernel Heap → Option (Result × FileKernel Heap)
  piped (o, s) = two_written o s

  unfoldable pub sys_pipe : ℕ → FileKernel Heap → Option (Result × FileKernel Heap)
  sys_pipe fds s = if fds == 0 then some (failed, s) else piped (create_pipe A null_pid s)

  abbrev closed : Option ℕ × FileKernel Heap → Option (Result × FileKernel Heap)
  closed (o, s) = some (result_of o, s)

  unfoldable pub sys_close : ℕ → FileKernel Heap → Option (Result × FileKernel Heap)
  sys_close fd s = closed (close_fd A fd s)

  unfoldable pub serve : ℕ → Call → Registers → FileKernel Heap → Option (Result × FileKernel Heap)
  unfolding sys_malloc sys_free sys_create_process sys_getpid sys_kill sys_block sys_unblock sys_ps
      sys_change_priority sys_yield sys_wait sys_sem_open sys_sem_close sys_sem_wait sys_sem_post
      sys_sem_destroy sys_pipe sys_close sys_get_fd
  serve rsp reserved r s = some (failed, s)
  serve rsp malloc r s = sys_malloc r.rdi s
  serve rsp free r s = sys_free r.rdi s
  serve rsp create_process r s = sys_create_process r.rdi s
  serve rsp getpid r s = sys_getpid s
  serve rsp kill r s = sys_kill rsp r.rdi s
  serve rsp block r s = sys_block rsp r.rdi s
  serve rsp unblock r s = sys_unblock r.rdi s
  serve rsp ps r s = sys_ps s
  serve rsp change_priority r s = sys_change_priority rsp r.rdi (int_of r.rsi) s
  serve rsp yield r s = sys_yield rsp s
  serve rsp wait r s = sys_wait rsp r.rdi s
  serve rsp sem_open r s = sys_sem_open r.rdi (int_of r.rsi) s
  serve rsp sem_close r s = sys_sem_close (int_of r.rdi) s
  serve rsp sem_wait r s = sys_sem_wait rsp (int_of r.rdi) s
  serve rsp sem_post r s = sys_sem_post (int_of r.rdi) s
  serve rsp sem_set r s = in_sem (sem_set_value A (int_of r.rdi) (int_of r.rsi) s.sem) s
  serve rsp sem_destroy r s = sys_sem_destroy (int_of r.rdi) s
  serve rsp pipe r s = sys_pipe r.rdi s
  serve rsp close r s = sys_close (int_of r.rdi) s
  serve rsp get_fd r s = sys_get_fd r.rdi s
  serve rsp device r s = on_device r s
  serve rsp unknown r s = some (returns 0 [], s)

  unfoldable pub syscall_dispatcher :
      ℕ → Registers → FileKernel Heap → Option (Result × FileKernel Heap)
  unfolding serve case_of
  syscall_dispatcher rsp r s = serve rsp (case_of r.rax) r s
