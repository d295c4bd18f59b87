-- ===== src/Scheduler/Switch.antt =====
-- `switchContext` of Kernel/process/scheduler.c.
pub mod Total
use tp2_sistemas_operativos.Prelude.{
  ℕ, zero, suc, ◌+◌, ◌-◌, Option, none, some, Bool, true, false, not, ◌&&◌, ◌||◌, ltb, ◌==◌,
  if◌then◌else◌, length, List,
}
use tp2_sistemas_operativos.Memory.Interface.{Allocator}
use tp2_sistemas_operativos.Queue.{Queue, nodes}
use tp2_sistemas_operativos.State.{
  Process, ProcessState, ready, running, blocked, exited, Kernel, put_process, put_state, state_of,
}
use tp2_sistemas_operativos.Scheduler.Ready.{schedule, unschedule}
use tp2_sistemas_operativos.Scheduler.Aging.{apply_aging}

abbrev pub default_quantum : ℕ
default_quantum = 3

abbrev pub is_stopped : ProcessState → Bool
is_stopped blocked = true
is_stopped exited = true
is_stopped _ = false

module _ {Heap : Type 0} where
  -- The entries of the five queues.
  abbrev pub waiting : Kernel Heap → ℕ
  waiting k =
      length (nodes (k.queues 0))
      + length (nodes (k.queues 1))
      + length (nodes (k.queues 2))
      + length (nodes (k.queues 3))
      + length (nodes (k.queues 4))

  unfoldable pub set_yield : Kernel Heap → Kernel Heap
  set_yield k = record k { is_yield = true }

  unfoldable pub clear_yield : Kernel Heap → Kernel Heap
  clear_yield k = record k { is_yield = false }

  -- The chosen process gets the processor and a fresh quantum.
  unfoldable pub start : ℕ → Kernel Heap → Kernel Heap
  start pcb k =
      put_process pcb (record (k.processes pcb) { state = running; aging_counter = 0 })
        (record k { current_process = some pcb; quantums_left = default_quantum })

  -- The running process is stopped: its stack pointer is kept, and its own priority comes back.
  unfoldable pub suspend : ℕ → ℕ → Kernel Heap → Kernel Heap
  suspend rsp pcb k =
      let p = k.processes pcb in
      put_process pcb (record p { stack_end = rsp; state = ready; priority = p.original_priority })
        k

module _ (A : Allocator) where
  open A use {Heap}

  -- One round, where `again` is what the further rounds give.
  unfoldable pub pick_round :
      Option (Option ℕ × Kernel Heap) → Option ℕ × Kernel Heap → Option (Option ℕ × Kernel Heap)
  pick_round again (none, k) = some (none, k)
  pick_round again (some pcb, k) = if is_stopped (state_of k pcb) then again else some (some pcb, k)

  -- The `do … while` that skips stopped processes. Each round takes an entry out of a queue, so that
  -- one round more than there are entries is enough (`Total`); `none` is a run out of rounds.
  unfoldable pub pick : ℕ → Kernel Heap → Option (Option ℕ × Kernel Heap)
  unfolding pick_round
  pick zero k = none
  pick (suc fuel) k = let again = pick fuel (unschedule A k).1 in pick_round again (unschedule A k)

  -- After the choice: the stack pointer to go on with.
  unfoldable pub resume : ℕ → Option (Option ℕ × Kernel Heap) → Option (ℕ × Kernel Heap)
  unfolding start clear_yield
  resume rsp none = none
  resume rsp (some (none, k)) = some (rsp, record k { current_process = none })
  resume rsp (some (some pcb, k)) = some ((k.processes pcb).stack_end, start pcb (clear_yield k))

  unfoldable pub choose_next : ℕ → Kernel Heap → Option (ℕ × Kernel Heap)
  choose_next rsp k = let aged = apply_aging A k in resume rsp (pick (suc (waiting aged)) aged)

  -- The first switch takes what the queues give, whatever its state.
  unfoldable pub first_switch : ℕ → Option ℕ × Kernel Heap → ℕ × Kernel Heap
  unfolding start
  first_switch rsp (none, k) = (rsp, record k { current_process = none })
  first_switch rsp (some pcb, k) = ((k.processes pcb).stack_end, start pcb k)

  unfoldable pub switch_from : ProcessState → ℕ → ℕ → Kernel Heap → Option (ℕ × Kernel Heap)
  unfolding suspend
  switch_from running rsp pcb k =
      let rest = choose_next rsp (schedule A (some pcb) (suspend rsp pcb k)) in
      if ltb 0 k.quantums_left && not k.is_yield
      then some (rsp, record k { quantums_left = k.quantums_left - 1 })
      else rest
  switch_from ready rsp pcb k = choose_next rsp k
  switch_from _ rsp pcb k = choose_next rsp (
      put_process pcb (record (k.processes pcb) { stack_end = rsp })
        (record k { quantums_left = 0 }))

  -- `switch_context`, given `currentProcess`.
  unfoldable pub switch_for : Option ℕ → ℕ → Kernel Heap → Option (ℕ × Kernel Heap)
  switch_for none rsp k = some (first_switch rsp (unschedule A k))
  switch_for (some pcb) rsp k = switch_from (state_of k pcb) rsp pcb k

  unfoldable pub switch_context : ℕ → Kernel Heap → Option (ℕ × Kernel Heap)
  switch_context rsp k = switch_for k.current_process rsp k
