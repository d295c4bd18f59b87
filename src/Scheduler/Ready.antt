-- ===== src/Scheduler/Ready.antt =====
-- Kernel/process/scheduler.c: the queues of the processes that are ready to run.
pub mod Choice
use tp2_sistemas_operativos.Prelude.{
  ℕ, zero, suc, ◌+◌, ◌-◌, ◌%◌, ◌^◌, Option, none, some, Bool, true, false, ◌||◌, ltb, ◌==◌,
  if◌then◌else◌, update,
}
use tp2_sistemas_operativos.Memory.Interface.{Allocator}
use tp2_sistemas_operativos.Queue.{Queue, is_empty, new_queue, queue, dequeue, remove_from_queue}
use tp2_sistemas_operativos.State.{
  Process, Kernel, put_process, put_queue, is_exited, max_pid, max_priority, min_priority,
}

-- `priority - 1` on `unsigned int`.
abbrev pub queue_index : Process → ℕ
queue_index p = (p.priority + 2 ^ 32 - 1) % 2 ^ 32

-- `getProcess` of Kernel/process/process.c: the entry of a PID that is in range and not EXITED.
unfoldable pub get_process : {Heap : Type 0} → ℕ → Kernel Heap → Option ℕ
get_process pid k =
    if pid == 0 || ltb max_pid pid
    then none
    else if is_exited (k.processes (pid - 1)).state
    then none
    else some (pid - 1)

unfoldable pub get_current_process : {Heap : Type 0} → Kernel Heap → Option ℕ
get_current_process k = k.current_process

module _ (A : Allocator) where
  open A use {Heap, alloc, free}

  -- `for (i = 0; i < n; i++) priorityQueues[i] = newQueue();` from `i`.
  unfoldable pub new_queues : ℕ → ℕ → Kernel Heap → Kernel Heap
  new_queues zero i k = k
  new_queues (suc n) i k =
      let (q, h) = new_queue A k.heap in new_queues n (i + 1) (put_queue i q h k)

  unfoldable pub init_scheduler : Kernel Heap → Kernel Heap
  init_scheduler k = record (new_queues max_priority 0 k) { current_process = none }

  -- `queue(priorityQueues[i], pcb)`.
  unfoldable pub put_ready : ℕ → ℕ → Kernel Heap → Kernel Heap
  put_ready i pcb k = let (q, h) = queue A (k.queues i) pcb k.heap in put_queue i q h k

  unfoldable pub schedule : Option ℕ → Kernel Heap → Kernel Heap
  unfolding put_ready
  schedule none k = k
  schedule (some pcb) k =
      let p = k.processes pcb in
      if ltb p.priority min_priority || ltb max_priority p.priority
      then k
      else put_ready (queue_index p) pcb k

  -- The loop of `unschedule` over the queues from `n - 1` down to 0.
  unfoldable pub unschedule_from : ℕ → Kernel Heap → Option ℕ × Kernel Heap
  unschedule_from zero k = (none, k)
  unschedule_from (suc i) k =
      let rest = unschedule_from i k in
      let (pcb, q, h) = dequeue A (k.queues i) k.heap in
      if is_empty (k.queues i) then rest else (pcb, put_queue i q h k)

  unfoldable pub unschedule : Kernel Heap → Option ℕ × Kernel Heap
  unschedule k = unschedule_from max_priority k

  -- The loop of `unscheduleProcess`, which takes one occurrence out of each queue from `i` on.
  unfoldable pub unschedule_each : ℕ → ℕ → ℕ → Kernel Heap → Kernel Heap
  unschedule_each zero i pcb k = k
  unschedule_each (suc n) i pcb k =
      let (found, q, h) = remove_from_queue A (k.queues i) pcb k.heap in
      unschedule_each n (i + 1) pcb (put_queue i q h k)

  unfoldable pub unschedule_process : Option ℕ → Kernel Heap → Kernel Heap
  unschedule_process none k = k
  unschedule_process (some pcb) k = unschedule_each max_priority 0 pcb k
