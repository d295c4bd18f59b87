-- ===== src/Scheduler/Block.antt =====
-- Kernel/process/scheduler.c: blocking, unblocking and giving up the processor.
-- `forceSwitchContext` raises the timer's interrupt, whose handler calls `switchContext` with the
-- stack pointer `rsp` of that moment.
pub mod Keeps
pub mod Twice
use tp2_sistemas_operativos.Prelude.{
  ℕ, ◌+◌, ◌-◌, Option, none, some, Bool, true, false, ◌||◌, ltb, ◌==◌, if◌then◌else◌,
}
use tp2_sistemas_operativos.Memory.Interface.{Allocator}
use tp2_sistemas_operativos.State.{
  Process, ProcessState, ready, running, blocked, exited, Kernel, put_process, put_state, state_of,
  is_blocked,
}
use tp2_sistemas_operativos.Scheduler.Ready.{get_process, schedule}
use tp2_sistemas_operativos.Scheduler.Switch.{switch_context, set_yield}

-- The code compares with the PID of `currentProcess`, which it reads through NULL before the first
-- switch; here no PID is the current one then.
abbrev pub is_current : {Heap : Type 0} → ℕ → Kernel Heap → Bool
is_current pid k = elim k.current_process [ none ↦ false | some i ↦ (k.processes i).pid == pid ]

module _ (A : Allocator) where
  open A use {Heap}

  unfoldable pub force_switch_context : ℕ → Kernel Heap → Option (Kernel Heap)
  force_switch_context rsp k = elim (switch_context A rsp k) [
    | none ↦ none
    | some (sp, k') ↦ some k'
  ]

  -- It returns 1 once the process runs again; the state is that after the switch away from it.
  unfoldable pub yield : ℕ → Kernel Heap → Option (Kernel Heap)
  yield rsp k = force_switch_context rsp (set_yield k)

  -- The result code beside the state.
  abbrev pub with_code : ℕ → Option (Kernel Heap) → Option (ℕ × Kernel Heap)
  with_code c none = none
  with_code c (some k) = some (c, k)

  unfoldable pub block_process : ℕ → ℕ → Kernel Heap → Option (ℕ × Kernel Heap)
  block_process rsp pid k = elim (get_process pid k) [
    | none ↦ some (1, k)
    | some i ↦
        let k' = put_state i blocked k in
        if is_current (k.processes i).pid k' then with_code 1 (yield rsp k') else some (0, k')
  ]

  -- 0, or `none` for the result -1.
  unfoldable pub unblock_process : ℕ → Kernel Heap → Option ℕ × Kernel Heap
  unblock_process pid k = elim (get_process pid k) [
    | none ↦ (none, k)
    | some i ↦
        if is_blocked (state_of k i)
        then (some 0, schedule A (some i) (put_state i ready k))
        else (none, k)
  ]
