-- ===== src/Process/Exit.antt =====
-- Kernel/process/process.c: waiting for a process, its end, and its priority.
-- `none` stands for a result of -1, and a status of `none` for one that is not written. Results come
-- beside the state at the moment when the call returns or its process loses the processor.
pub mod Kill
use tp2_sistemas_operativos.Prelude.{
  ℕ, zero, suc, ◌+◌, ◌-◌, List, [], ◌∷◌, Option, none, some, Bool, true, false, not, ◌&&◌, ◌||◌,
  ltb, leb, ◌==◌, if◌then◌else◌, take, update,
}
use tp2_sistemas_operativos.Memory.Interface.{Allocator}
use tp2_sistemas_operativos.State.{
  Process, ProcessState, exited, Kernel, put_process, state_of, is_exited, max_pid, init_pid,
  stack_size,
}
use tp2_sistemas_operativos.Files.{FileKernel, with_kernel, kernel_of}
use tp2_sistemas_operativos.Files.Close.{close_fd}
use tp2_sistemas_operativos.Process.Table.{is_valid_pid, check_priority}
use tp2_sistemas_operativos.Process.Create.{free_each}
use tp2_sistemas_operativos.Scheduler.Ready.{unschedule_process}
use tp2_sistemas_operativos.Scheduler.Block.{
  is_current, force_switch_context, yield, block_process, unblock_process,
}

module _ (A : Allocator) where
  open A use {Heap, alloc, free}

  -- The arguments and their array, where there are any.
  unfoldable pub free_argv : Process → Heap → Heap
  unfolding free_each
  free_argv p h = if ltb 0 p.argc then free p.argv (free_each A (take p.argc p.args) h) else h

  -- The process leaves the queues, and its memory is freed.
  unfoldable pub release : ℕ → Kernel Heap → Kernel Heap
  release i k =
      let out = unschedule_process A (some i) k in
      let p = out.processes i in
      record out { heap = free_argv p (free (p.stack_base - stack_size) out.heap) }

  unfoldable pub bury : ℕ → Kernel Heap → Kernel Heap
  bury i k =
      put_process i (record (k.processes i) { state = exited; argv = 0; argc = 0; args = [] }) k

  unfoldable pub close_both : ℕ → FileKernel Heap → FileKernel Heap
  close_both i s =
      let first = (close_fd A ((kernel_of s).processes i).fds.0 s).1 in
      (close_fd A ((kernel_of first).processes i).fds.1 first).1

  -- The process that waits for this one is woken.
  unfoldable pub wake_waiter : ℕ → Option ℕ → Kernel Heap → Kernel Heap
  wake_waiter i none k = k
  wake_waiter i (some pid) k =
      let woken = (unblock_process A pid k).1 in
      put_process i (record (woken.processes i) { wait_pid = none }) woken

  unfoldable pub end_process : ℕ → FileKernel Heap → FileKernel Heap
  end_process i s =
      let closed = close_both i (with_kernel (bury i (release i (kernel_of s))) s) in
      with_kernel (wake_waiter i ((kernel_of closed).processes i).wait_pid (kernel_of closed))
        closed

  -- Whether the result is 0 or -1, beside the state; the outer `none` is a switch that does not
  -- return, which `switch_context` never is.
  unfoldable pub leave : ℕ → ℕ → FileKernel Heap → Option (Option ℕ × FileKernel Heap)
  leave rsp pid s =
      if is_current pid (kernel_of s)
      then elim (force_switch_context A rsp (kernel_of s)) [
        | none ↦ none
        | some k ↦ some (some 0, with_kernel k s)
      ]
      else some (some 0, s)

  unfoldable pub kill : ℕ → ℕ → FileKernel Heap → Option (Option ℕ × FileKernel Heap)
  kill rsp pid s =
      if leb pid init_pid || ltb max_pid pid
      then some (none, s)
      else if is_exited (state_of (kernel_of s) (pid - 1))
      then some (none, s)
      else leave rsp pid (end_process (pid - 1) s)

  -- After `entry` returned `value` to the current process `i`.
  unfoldable pub process_loader : ℕ → ℕ → ℕ → FileKernel Heap → Option (Option ℕ × FileKernel Heap)
  process_loader rsp i value s =
      let k = kernel_of s in
      kill rsp (k.processes i).pid
        (with_kernel (put_process i (record (k.processes i) { wait_return_value = value }) k) s)

  unfoldable pub change_process_priority : ℕ → ℕ → ℕ → Kernel Heap → Option (Option ℕ × Kernel Heap)
  change_process_priority rsp pid priority k =
      let i = pid - 1 in
      let changed =
        put_process i
          (record (k.processes i) {
            priority = priority;
            original_priority = priority;
            aging_counter = 0;
          })
          k in
      if not (is_valid_pid pid k) || not (check_priority priority)
      then some (none, k)
      else if (k.processes i).original_priority == priority
      then some (some 0, k)
      else if is_current (k.processes i).pid changed
      then elim (yield A rsp changed) [ none ↦ none | some k' ↦ some (some 0, k') ]
      else some (some 0, changed)

  -- `waitProcess` up to where the caller `i` loses the processor, with the status that is written
  -- where it returns at once.
  unfoldable pub begin_wait : ℕ → ℕ → ℕ → Kernel Heap → Option (Option ℕ × Kernel Heap)
  begin_wait rsp i pid k =
      let target = pid - 1 in
      let own = (k.processes i).pid in
      let marked = put_process target (record (k.processes target) { wait_pid = some own }) k in
      if pid == 0 || ltb max_pid pid
      then some (none, k)
      else if is_exited (state_of k target)
      then some (some 0, k)
      else elim (block_process A rsp own marked) [ none ↦ none | some (c, k') ↦ some (none, k') ]

  -- `waitProcess` once the caller runs again: it gives up the processor a second time, and then
  -- reads the status.
  unfoldable pub resume_wait : ℕ → Kernel Heap → Option (Kernel Heap)
  resume_wait rsp k = force_switch_context A rsp k

  unfoldable pub wait_status : ℕ → Kernel Heap → ℕ
  wait_status pid k = (k.processes (pid - 1)).wait_return_value
